-- ===== src/Startup/Resources.antt =====
-- What is opened is closed, and what is secret is not logged.
use fair_drop.Common.{
  ℕ, ◌≡◌, sym, subst, ◌+◌, refl, inl, inr, ◌∙◌, ap, true, false, String, none, some, arith, str_eq,
  if◌then◌else◌, Bool-cases, Option-cases,
}
use fair_drop.Exceptions.{Result, ok, Result-cases}
use fair_drop.Startup.{
  DatabaseSettings, database_url, database_url_masked, Buckets, init_s3_bucket, Open, Outside,
  lifespan_enter, lifespan_exit, WorkerContext, startup, shutdown,
}

abbrev open_of : ℕ → ℕ → ℕ → Open
open_of c p e = record { clients = c; pools = p; engines = e }

-- The address that is logged does not depend on the password, and is the database's where the
-- password is four stars.
pub database_url_masked-hides :
    (c : DatabaseSettings) (password : String)
    → (database_url_masked (record c { db_password = password }) ≡ database_url_masked c)
      × (database_url (record c { db_password = "****" }) ≡ database_url_masked c)
unfolding database_url database_url_masked
database_url_masked-hides c password = (refl, refl)

init-found :
    (buckets : Buckets) (name : String) (s : buckets.Store)
    → buckets.head_bucket name s ≡ none
    → init_s3_bucket buckets name s ≡ s
unfolding init_s3_bucket
init-found buckets name s h = rw (h, init_s3_bucket)

init-failed :
    (buckets : Buckets) (name code : String) (s : buckets.Store)
    → buckets.head_bucket name s ≡ some code
    → init_s3_bucket buckets name s
      ≡ (if str_eq code "404" then buckets.create_bucket name s else s)
unfolding init_s3_bucket
init-failed buckets name code s h = rw (h, init_s3_bucket)

-- A second start makes no further bucket.
pub init_s3_bucket_once :
    (buckets : Buckets) (name : String) (s : buckets.Store)
    → init_s3_bucket buckets name (init_s3_bucket buckets name s) ≡ init_s3_bucket buckets name s
init_s3_bucket_once buckets name s = elim (Option-cases (buckets.head_bucket name s)) [
  | inl there ↦ ap (init_s3_bucket buckets name) (init-found buckets name s there)
  | inr (code, failed) ↦
      let first = init-failed buckets name code s failed in
      elim (Bool-cases (str_eq code "404")) [
        | inl missing ↦
            rw (first, missing)
              (init-found buckets name (buckets.create_bucket name s) (buckets.head-create name s))
        | inr other ↦ ap (init_s3_bucket buckets name) (first ∙ rw other)
      ]
]

same_open : (c p e : ℕ) (s : Open) → c ≡ s.clients → p ≡ s.pools → e ≡ s.engines → open_of c p e ≡ s
same_open c p e s h k l = rw (h, k, l)

-- What an application that has started holds open is closed when it ends.
pub lifespan-closes :
    (o : Outside) (s : Open)
    → (lifespan_enter o s).0 ≡ ok tt
    → lifespan_exit (lifespan_enter o s).1 ≡ s
unfolding lifespan_enter lifespan_exit
lifespan-closes o s h = elim (Result-cases o.create_pool) [
  | inr (e, failed) ↦ absurd (ground arith)
  | inl (u, made) ↦ rw made (same_open _ _ _ s (omega arith) (omega arith) refl)
]

-- A worker that has started closes its engine when it ends.
pub shutdown-closes :
    (o : Outside) (s : Open) (ctx : WorkerContext)
    → (startup o false s).0 ≡ ok ctx
    → shutdown ctx (startup o false s).1 ≡ s
unfolding startup shutdown
shutdown-closes o s ctx h = elim (Result-cases o.create_engine) [
  | inr (e, failed) ↦ absurd (ground arith)
  | inl (u, made) ↦
      let started : startup o false s ≡ (ok true, record s { engines = s.engines + 1 }) = rw made in
      let first : Path (Result WorkerContext) (ok true) (ok ctx) =
        sym (ap (λ x. x.0) started) ∙ h in
      let opened : true ≡ ctx = cc in
      subst (λ c. shutdown c (startup o false s).1 ≡ s) opened
        (ap (λ x. shutdown true x.1) started ∙ same_open _ _ _ s refl refl (omega arith))
]
