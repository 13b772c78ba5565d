-- ===== src/Media/Paths/Normal.antt =====
-- The loop that strips the buckets ends, and what it leaves.
use fair_drop.Common.{
  ℕ, zero, suc, ◌<◌, ◌≡◌, refl, ap, ◌∙◌, inl, inr, Bool, true, false, String, Option, none, some,
  List, [], ◌∷◌, arith, All, Bool-cases, Option-cases, chars, lstrip, strip_char, strip_prefix,
  IsEndOf, whole, IsEndOf-trans, strip_prefix-IsEndOf, chars-IsEndOf, strip_char-IsEndOf,
  lstrip-IsEndOf, strip_char-lstrip, lstrip_fixed, later,
}
use Prim.Native.Char.{code}
use fair_drop.Common.{◌==◌}
use fair_drop.Config.{Settings}
use fair_drop.Media.Paths.{
  slash, strip_bucket, updated, strip_buckets, strip_all, bucket_candidates, trimmed, has_scheme,
  after_slashes, path_of, object_key,
}

strip_bucket-IsEndOf :
    (b key rest : String)
    → strip_bucket b key ≡ some rest
    → IsEndOf rest key × (chars rest < chars key)
unfolding strip_bucket
strip_bucket-IsEndOf b key rest h = elim (Option-cases (strip_prefix b key)) [
  | inl miss ↦ absurd (ground arith)
  | inr (mid, e) ↦
      let front = strip_prefix-IsEndOf b key mid e in
      let back = strip_char-IsEndOf slash mid rest (ground arith) in
      (IsEndOf-trans back.0 front, omega (arith, chars-IsEndOf front, back.1))
]

-- What the `for` loop has done: it has stripped something, or no bucket is there.
record IsLooped (buckets : List String) (key : String) (stripped : Bool) (key' : String)
    (stripped' : Bool) : Type 0 where
  front : IsEndOf key' key
  less : stripped' ≡ true → stripped ≡ false → chars key' < chars key
  rest : stripped' ≡ false → (key' ≡ key) × All (λ b. strip_bucket b key ≡ none) buckets
  kept : stripped ≡ true → stripped' ≡ true

step-IsLooped :
    (b : String) (buckets : List String) (key : String) (stripped : Bool) (o : Option String)
    (key' : String) (stripped' : Bool)
    → strip_bucket b key ≡ o
    → IsLooped buckets (updated o (key, stripped)).0 (updated o (key, stripped)).1 key' stripped'
    → IsLooped (b ∷ buckets) key stripped key' stripped'
step-IsLooped b buckets key stripped none key' stripped' miss l = record {
  front = l.front;
  less = l.less;
  rest = λ h. ((l.rest h).0, (miss, (l.rest h).1));
  kept = l.kept;
}
step-IsLooped b buckets key stripped (some next) key' stripped' hit l =
    let (end, smaller) = strip_bucket-IsEndOf b key next hit in
    record {
      front = IsEndOf-trans l.front end;
      less = λ h fresh. omega (arith, chars-IsEndOf l.front);
      rest = λ h. cc (l.kept refl);
      kept = λ h. l.kept refl;
    }

strip_buckets-IsLooped :
    (buckets : List String) (key : String) (stripped : Bool)
    → let (key', stripped') = strip_buckets buckets (key, stripped) in
      IsLooped buckets key stripped key' stripped'
unfolding strip_buckets
strip_buckets-IsLooped [] key stripped = record {
  front = whole;
  less = λ h k. cc;
  rest = λ h. (refl, tt);
  kept = λ h. h;
}
strip_buckets-IsLooped (b ∷ buckets) key stripped =
    let state = updated (strip_bucket b key) (key, stripped) in
    step-IsLooped b buckets key stripped (strip_bucket b key) _ _ refl
      (strip_buckets-IsLooped buckets state.0 state.1)

-- No slash and no bucket is in front of the key, and the key is an end of the text.
pub record IsStripped (buckets : List String) (text key : String) : Type 0 where
  pub front : IsEndOf key text
  pub no_slash : strip_char slash key ≡ none
  pub no_bucket : All (λ b. strip_bucket b key ≡ none) buckets

strip_all_total :
    (rounds : ℕ) (buckets : List String) (key : String)
    → chars key < rounds
    → (key' : String) × (strip_all rounds buckets key ≡ some key') × IsStripped buckets key key'
unfolding strip_all
strip_all_total zero buckets key h = absurd (omega arith)
strip_all_total (suc rounds) buckets key h =
    let start = lstrip slash key in
    let end = lstrip-IsEndOf slash key in
    let l = strip_buckets-IsLooped buckets start false in
    elim (Bool-cases (strip_buckets buckets (start, false)).1) [
      | inl stripped ↦
          let (key', done, e) =
            strip_all_total rounds buckets (strip_buckets buckets (start, false)).0
              (omega (arith, l.less stripped refl, chars-IsEndOf end)) in
          (
            key',
            rw stripped done,
            record {
              front = IsEndOf-trans e.front (IsEndOf-trans l.front end);
              no_slash = e.no_slash;
              no_bucket = e.no_bucket;
            },
          )
      | inr clean ↦
          let (same, none') = l.rest clean in
          (
            start,
            rw clean (ap some same),
            record { front = end; no_slash = strip_char-lstrip slash key; no_bucket = none' },
          )
    ]

after_slashes-IsEndOf :
    (n : ℕ) (key path : String) → after_slashes n key ≡ some path → IsEndOf path key
unfolding after_slashes
after_slashes-IsEndOf zero key path h = let e : key ≡ path = cc in rw (← e) whole
after_slashes-IsEndOf (suc n) String.[] path h = cc
after_slashes-IsEndOf (suc n) (String.◌∷◌ c key) path h = elim (Bool-cases (code c == slash)) [
  | inl cut ↦ later c (after_slashes-IsEndOf n key path (ground arith))
  | inr on ↦ later c (after_slashes-IsEndOf (suc n) key path (ground arith))
]

path_of-IsEndOf : (key : String) → IsEndOf (path_of key) key
unfolding path_of
path_of-IsEndOf key = elim (Bool-cases (has_scheme key)) [
  | inr plain ↦ rw plain whole
  | inl url ↦ elim (Option-cases (after_slashes 3 key)) [
    | inl short ↦ rw url (rw short whole)
    | inr (path, cut) ↦ rw url (rw cut (after_slashes-IsEndOf 3 key path cut))
  ]
]

-- The loop that strips the buckets off a file's key ends, for every key and every bucket name: the
-- object's key is an end of the given one, and neither a slash nor one of the bucket names with a
-- slash is in front of it.
pub object_key_total :
    (settings : Settings) (key : String)
    → (key' : String) × (object_key settings key ≡ some key')
      × IsStripped (bucket_candidates settings) key key'
unfolding object_key
object_key_total settings key =
    let path = path_of key in
    let (key', done, e) =
      strip_all_total (suc (chars path)) (bucket_candidates settings) path (omega arith) in
    (
      key',
      ap trimmed done ∙ ap some (lstrip_fixed slash key' e.no_slash),
      record {
        front = IsEndOf-trans e.front (path_of-IsEndOf key);
        no_slash = e.no_slash;
        no_bucket = e.no_bucket;
      },
    )
