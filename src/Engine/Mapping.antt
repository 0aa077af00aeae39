-- ===== src/Engine/Mapping.antt =====
-- crates/engine/src/mapping.rs: the names that a row renders, its document's id and its index. The
-- text that serde_json gives a value is a parameter, and an error keeps what its message names.
pub mod Spelled
pub mod Cleared
pub mod Keyed
pub mod Yields
mod Tests
use pg2osync.Base.{
  ℕ, ◌≡◌, refl, Bool, true, false, not, ◌&&◌, ◌||◌, Option, none, some, List, [], ◌∷◌, ◌++◌, leb,
  ◌==◌, if◌then◌else◌,
}
use pg2osync.Base.Text.{Text, text, text_eq}
use pg2osync.Core.Json.{
  Value, Fields, null, bool, number, string, array, object, end, field, get_field,
}

pub data MappingError : Type 0 where
  unbalanced_open nested_open empty_placeholder unbalanced_close empty_template : MappingError
  -- of a column, or a name
  bad_placeholder missing is_null bad_index no_elements : Text → MappingError
  no_row null_key not_one_column not_in_key no_before_image : MappingError
  append_only_change : MappingError

pub data Attempt {ℓ} (A : Type ℓ) : Type ℓ where
  done : A → Attempt A
  refused : MappingError → Attempt A

module _ {ℓ κ} {A : Type ℓ} {B : Type κ} where
  infixl 5 ◌>>=◌
  abbrev pub ◌>>=◌ : Attempt A → (A → Attempt B) → Attempt B
  done a >>= next = next a
  refused why >>= next = refused why

  -- What a bind returns came through both of its parts.
  pub >>=-eq-done :
      (first : Attempt A) (next : A → Attempt B) {b : B}
      → (first >>= next) ≡ done b
      → (a : A) × (first ≡ done a) × (next a ≡ done b)
  >>=-eq-done (done a) next e = (a, refl, e)
  >>=-eq-done (refused why) next e = cc

pub data IdPart : Type 0 where
  literal column : Text → IdPart

pub record IdTemplate : Type 0 where
  pub parts : List IdPart
  pub pk_only : Bool

unfoldable pub is_alphabetic : ℕ → Bool
is_alphabetic c = (leb 65 c && leb c 90) || (leb 97 c && leb c 122)

unfoldable pub all_in_name : Text → Bool
all_in_name [] = true
all_in_name (c ∷ s) = (is_alphabetic c || (leb 48 c && leb c 57) || c == 95) && all_in_name s

unfoldable pub is_column_name : Text → Bool
is_column_name [] = false
is_column_name (c ∷ s) = (is_alphabetic c || c == 95) && all_in_name (c ∷ s)

-- `mem::take` of a literal that is not empty
unfoldable pub flushed : Text → List IdPart → List IdPart
flushed [] parts = parts
flushed (c ∷ s) parts = parts ++ literal (c ∷ s) ∷ []

unfoldable pub close_name : Text → Text → List IdPart → Attempt (List IdPart)
close_name [] lit parts = refused empty_placeholder
close_name (c ∷ s) lit parts =
    if is_column_name (c ∷ s)
    then done (flushed lit parts ++ column (c ∷ s) ∷ [])
    else refused (bad_placeholder (c ∷ s))

-- The loop over the characters, inside a placeholder or not, with the literal and the parts so far.
unfoldable pub scan_parts : Text → Option Text → Text → List IdPart → Attempt (List IdPart)
scan_parts [] none lit parts = done (flushed lit parts)
scan_parts [] (some name) lit parts = refused unbalanced_open
scan_parts (c ∷ s) none lit parts =
    let opened = scan_parts s (some []) lit parts in
    let longer = scan_parts s none (lit ++ c ∷ []) parts in
    if c == 123 then opened else (if c == 125 then refused unbalanced_close else longer)
scan_parts (c ∷ s) (some name) lit parts =
    let closed = close_name name lit parts >>= scan_parts s none [] in
    let longer = scan_parts s (some (name ++ c ∷ [])) lit parts in
    if c == 125 then closed else (if c == 123 then refused nested_open else longer)

unfoldable pub in_texts : Text → List Text → Bool
in_texts k [] = false
in_texts k (s ∷ ts) = text_eq s k || in_texts k ts

unfoldable pub with_name : Text → List Text → List Text
with_name c names = if in_texts c names then names else names ++ c ∷ []

-- `column_names`, from the left, of which each is listed once
unfoldable pub names_after : List Text → List IdPart → List Text
names_after names [] = names
names_after names (literal s ∷ parts) = names_after names parts
names_after names (column c ∷ parts) = names_after (with_name c names) parts

unfoldable pub column_names : List IdPart → List Text
column_names parts = names_after [] parts

unfoldable pub all_in : List Text → List Text → Bool
all_in keys [] = true
all_in keys (s ∷ ts) = in_texts s keys && all_in keys ts

unfoldable pub checked_parts : List Text → List IdPart → Attempt IdTemplate
checked_parts keys [] = refused empty_template
checked_parts keys (p ∷ parts) =
    done (record { parts = p ∷ parts; pk_only = all_in keys (column_names (p ∷ parts)) })

-- `IdTemplate::parse`
unfoldable pub parse_template : Text → List Text → Attempt IdTemplate
parse_template spec keys = scan_parts spec none [] [] >>= checked_parts keys

unfoldable pub is_null_value : Value → Bool
is_null_value null = true
is_null_value _ = false

module _ (to_json : Value → Text) where
  unfoldable pub scalar_display : Value → Text
  scalar_display (string s) = s
  scalar_display null = to_json null
  scalar_display (bool b) = to_json (bool b)
  scalar_display (number n) = to_json (number n)
  scalar_display (array items) = to_json (array items)
  scalar_display (object fields) = to_json (object fields)

  unfoldable pub shown_column : Text → Option Value → Attempt Text
  shown_column c none = refused (missing c)
  shown_column c (some v) = if is_null_value v then refused (is_null c) else done (scalar_display v)

  unfoldable pub rendered_part : Fields → IdPart → Attempt Text
  rendered_part doc (literal s) = done s
  rendered_part doc (column c) = shown_column c (get_field c doc)

  unfoldable pub render_parts : Fields → List IdPart → Text → Attempt Text
  render_parts doc [] out = done out
  render_parts doc (p ∷ parts) out =
      rendered_part doc p >>= λ shown. render_parts doc parts (out ++ shown)

  -- `IdTemplate::render`
  unfoldable pub render_template : IdTemplate → Value → Attempt Text
  render_template t (object doc) = render_parts doc t.parts []
  render_template t _ = refused no_row

  unfoldable pub render_scalar : IdTemplate → List Text → Value → Attempt Text
  render_scalar t [] scalar = refused not_one_column
  render_scalar t (c ∷ []) scalar =
      if t.pk_only then render_template t (object (field c scalar end)) else refused not_in_key
  render_scalar t (c ∷ d ∷ cs) scalar = refused not_one_column

  -- `IdTemplate::render_from_pk`
  unfoldable pub render_template_from_pk : IdTemplate → Value → Attempt Text
  render_template_from_pk t (object key) = render_template t (object key)
  render_template_from_pk t null = refused null_key
  render_template_from_pk t (bool b) = render_scalar t (column_names t.parts) (bool b)
  render_template_from_pk t (number n) = render_scalar t (column_names t.parts) (number n)
  render_template_from_pk t (string s) = render_scalar t (column_names t.parts) (string s)
  render_template_from_pk t (array items) = render_scalar t (column_names t.parts) (array items)

unfoldable pub all_in_index : Text → Bool
all_in_index [] = true
all_in_index (c ∷ s) =
    ((leb 97 c && leb c 122) || (leb 48 c && leb c 57) || c == 95 || c == 45) && all_in_index s

-- `check_index_name`, whose last rule the first implies
unfoldable pub is_index_name : Text → Bool
is_index_name [] = false
is_index_name (c ∷ s) = (leb 97 c && leb c 122) && all_in_index (c ∷ s)

pub data IndexTarget : Type 0 where
  static : Text → IndexTarget
  -- the spec as written
  template : Text → IdTemplate → IndexTarget

-- `usable`
unfoldable pub usable : Text → Attempt Text
usable name = if is_index_name name then done name else refused (bad_index name)

-- The wildcard of a template, from what stands before the parts.
unfoldable pub ends_in_star : Text → Bool
ends_in_star [] = false
ends_in_star (c ∷ []) = c == 42
ends_in_star (c ∷ d ∷ s) = ends_in_star (d ∷ s)

unfoldable pub pattern_after : Text → List IdPart → Text
pattern_after out [] = out
pattern_after out (literal s ∷ parts) = pattern_after (out ++ s) parts
pattern_after out (column c ∷ parts) =
    pattern_after (if ends_in_star out then out else out ++ 42 ∷ []) parts

-- `IndexTarget::pattern`
unfoldable pub target_pattern : IndexTarget → Text
target_pattern (static name) = name
target_pattern (template spec t) = pattern_after [] t.parts

unfoldable pub target_is_pk_only : IndexTarget → Bool
target_is_pk_only (static name) = true
target_is_pk_only (template spec t) = t.pk_only

module _ (to_json : Value → Text) where
  -- `IndexTarget::render`
  unfoldable pub render_target : IndexTarget → Value → Attempt Text
  render_target (static name) doc = done name
  render_target (template spec t) doc = render_template to_json t doc >>= usable

  -- `IndexTarget::render_from_pk`
  unfoldable pub render_target_from_pk : IndexTarget → Value → Attempt Text
  render_target_from_pk (static name) pk = done name
  render_target_from_pk (template spec t) pk = render_template_from_pk to_json t pk >>= usable
