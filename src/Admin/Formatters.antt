-- ===== src/Admin/Formatters.antt =====
-- The formatters of columns, `AdminPanelFormatter` of app/core/admin/admin.py. The template shows a
-- `Markup` as it is, and escapes any other text.
pub mod Verbatim
use Prim.Native.String
use fair_drop.Common.{
  ℕ, Bool, ◌||◌, String, Option, none, some, List, [], ◌∷◌, str_eq, if◌then◌else◌,
}
use fair_drop.Json.{Json, Dict}

pub data Cell : Type 0 where
  markup : String → Cell
  plain : String → Cell

abbrev pub status_colors : List (String × String)
status_colors =
    ("ACTIVE", "success")
    ∷ ("PENDING", "warning")
    ∷ ("REJECTED", "danger")
    ∷ ("PENDING_MODERATION", "info")
    ∷ ("PAID", "success")
    ∷ ("SHIPPED", "info")
    ∷ ("COMPLETED", "success")
    ∷ ("CANCELLED", "danger")
    ∷ ("FAILED", "danger")
    ∷ ("EXPIRED", "secondary")
    ∷ ("DRAFT", "secondary")
    ∷ ("MODERATION_IN_PROGRESS", "info")
    ∷ ("APPROVED", "success")
    ∷ ("SELLER_B2B", "primary")
    ∷ ("USER_B2B", "secondary")
    ∷ []

-- `status_colors.get(value, 'secondary')`
unfoldable pub color_of : List (String × String) → String → String
color_of [] value = "secondary"
color_of ((status, color) ∷ colors) value =
    if str_eq status value then color else color_of colors value

-- The attribute's name, and its value as text.
unfoldable pub status_formatter : String → String → Cell
status_formatter name value =
    if str_eq name "status" || (str_eq name "target_role" || str_eq name "role")
    then markup (
        String.◌++◌ "<span class=\"badge bg-" (
          String.◌++◌ (color_of status_colors value)
            (String.◌++◌ "\">" (String.◌++◌ value "</span>"))))
    else plain value

-- A link to the page of a row, or `N/A`.
abbrev pub link_to : String → Option String → Cell
link_to page none = plain "N/A"
link_to page (some id) =
    markup (String.◌++◌ page (String.◌++◌ id (String.◌++◌ "\">" (String.◌++◌ id "</a>"))))

unfoldable pub user_link_formatter : Option String → Cell
user_link_formatter = link_to "<a href=\"/admin/user/details/"

unfoldable pub product_link_formatter : Option String → Cell
product_link_formatter = link_to "<a href=\"/admin/product/details/"

unfoldable pub order_link_formatter : Option String → Cell
order_link_formatter = link_to "<a href=\"/admin/order/details/"

-- What stands in front of a document's key, between its two places, and behind it.
abbrev pub link_start : String → String
link_start id =
    String.◌++◌ "<a href=\"/api/v1/media/view/verification_doc/" (String.◌++◌ id "?doc_key=")

abbrev pub link_end : String → String
link_end doc_type = String.◌++◌ "\" target=\"_blank\">" (String.◌++◌ doc_type "</a>")

abbrev pub doc_link : String → String → String
doc_link id doc_type = String.◌++◌ (link_start id) (String.◌++◌ doc_type (link_end doc_type))

-- `', '.join(links)`, of one link for each key.
pub joined_links : String → Dict → String
joined_links id [] = ""
joined_links id ((doc_type, v) ∷ []) = doc_link id doc_type
joined_links id ((doc_type, v) ∷ next ∷ docs) =
    String.◌++◌ (doc_link id doc_type) (String.◌++◌ ", " (joined_links id (next ∷ docs)))

pub docs_link_formatter : String → Option Dict → Cell
docs_link_formatter id none = plain "No docs"
docs_link_formatter id (some []) = plain "No docs"
docs_link_formatter id (some (doc ∷ docs)) = markup (joined_links id (doc ∷ docs))
