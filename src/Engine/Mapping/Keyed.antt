-- ===== src/Engine/Mapping/Keyed.antt =====
-- What a key alone renders is what the row renders, where the template names the key's columns.
use pg2osync.Base.{
  ◌≡◌, ◌≢◌, ◌⊎◌, refl, sym, ap, ◌∙◌, Bool, true, false, ◌||◌, some, List, [], ◌∷◌, ◌++◌, All, arith,
  Bool-cases, inl, inr,
}
use mathlib.Core.Path.{fun_ext}
use pg2osync.Base.Text.{Text, text_eq, text_eq_iff, text_eq_refl}
use pg2osync.Core.Json.{
  Value, Fields, null, bool, number, string, array, object, end, field, get_field,
}
use pg2osync.Engine.Mapping.{
  done, ◌>>=◌, IdPart, literal, column, IdTemplate, in_texts, names_after, column_names, all_in,
  rendered_part, render_parts, render_template, render_scalar, render_template_from_pk,
  parse_template, shown_column, with_name,
}
use pg2osync.Engine.Mapping.Spelled.{parse_template-written}

-- Every placeholder is listed.
abbrev Names : List Text → IdPart → Type 0
Names names (literal s) = Unit
Names names (column c) = in_texts c names ≡ true

in_texts-append :
    (k s : Text) (names : List Text) → in_texts k names ≡ true → in_texts k (names ++ s ∷ []) ≡ true
unfolding in_texts
in_texts-append k s [] h = cc
in_texts-append k s (n ∷ names) h = ground (arith, in_texts-append k s names)

in_texts-last : (k : Text) (names : List Text) → in_texts k (names ++ k ∷ []) ≡ true
unfolding in_texts
in_texts-last k [] = rw (text_eq_refl k)
in_texts-last k (n ∷ names) = rw (in_texts-last k names) (or_true (text_eq n k))
  where
    or_true : (b : Bool) → (b || true) ≡ true
    or_true true = refl
    or_true false = refl

in_texts-with_name :
    (k c : Text) (names : List Text)
    → in_texts k names ≡ true
    → in_texts k (with_name c names) ≡ true
unfolding with_name
in_texts-with_name k c names h = elim (Bool-cases (in_texts c names)) [
  | inl old ↦ rw old h
  | inr new ↦ rw new (in_texts-append k c names h)
]

with_name_self : (c : Text) (names : List Text) → in_texts c (with_name c names) ≡ true
unfolding with_name
with_name_self c names = elim (Bool-cases (in_texts c names)) [
  | inl old ↦ rw old old
  | inr new ↦ rw new (in_texts-last c names)
]

in_texts-names_after :
    (k : Text) (names : List Text) (parts : List IdPart)
    → in_texts k names ≡ true
    → in_texts k (names_after names parts) ≡ true
unfolding names_after
in_texts-names_after k names [] h = h
in_texts-names_after k names (literal s ∷ parts) h = in_texts-names_after k names parts h
in_texts-names_after k names (column c ∷ parts) h =
    in_texts-names_after k (with_name c names) parts (in_texts-with_name k c names h)

Names-names_after :
    (names : List Text) (parts : List IdPart) → All (Names (names_after names parts)) parts
unfolding names_after
Names-names_after names [] = tt
Names-names_after names (literal s ∷ parts) = (tt, Names-names_after names parts)
Names-names_after names (column c ∷ parts) = (
  in_texts-names_after c (with_name c names) parts (with_name_self c names),
  Names-names_after (with_name c names) parts,
)

in_texts-all_in :
    (keys names : List Text) (k : Text)
    → all_in keys names ≡ true
    → in_texts k names ≡ true
    → in_texts k keys ≡ true
unfolding all_in in_texts
in_texts-all_in keys [] k h e = cc
in_texts-all_in keys (n ∷ names) k h e =
    ground (arith, text_eq_iff n k, in_texts-all_in keys names k)

module _ (to_json : Value → Text) (keys : List Text) (key doc : Fields)
    (alike : (k : Text) → in_texts k keys ≡ true → get_field k key ≡ get_field k doc) where
  render_parts-alike :
      (names : List Text) (parts : List IdPart) (out : Text)
      → all_in keys names ≡ true
      → All (Names names) parts
      → render_parts to_json key parts out ≡ render_parts to_json doc parts out
  unfolding render_parts rendered_part
  render_parts-alike names [] out h named = refl
  render_parts-alike names (literal s ∷ parts) out h named =
      render_parts-alike names parts (out ++ s) h named.1
  render_parts-alike names (column c ∷ parts) out h named =
      rw (alike c (in_texts-all_in keys names c h named.0)) (
        ap (λ next. shown_column to_json c (get_field c doc) >>= next)
          (fun_ext (λ v. render_parts-alike names parts (out ++ v) h named.1)))

-- Where the key is one column, the placeholders name it or nothing.
abbrev AtMost : Text → List Text → Type 0
AtMost k names = (names ≡ []) ⊎ (names ≡ k ∷ [])

AtMost-with_name : (k : Text) (names : List Text) → AtMost k names → AtMost k (with_name k names)
unfolding with_name in_texts
AtMost-with_name k names (inl e) = rw e (inr refl)
AtMost-with_name k names (inr e) = rw (e, text_eq_refl k) (inr refl)

AtMost-names_after :
    (k : Text) (all_names names : List Text) (parts : List IdPart)
    → all_in (k ∷ []) all_names ≡ true
    → All (Names all_names) parts
    → AtMost k names
    → AtMost k (names_after names parts)
unfolding names_after in_texts
AtMost-names_after k all_names names [] h named most = most
AtMost-names_after k all_names names (literal s ∷ parts) h named most =
    AtMost-names_after k all_names names parts h named.1 most
AtMost-names_after k all_names names (column c ∷ parts) h named most =
    let listed = in_texts-all_in (k ∷ []) all_names c h named.0 in
    let same : k ≡ c = ground (arith, text_eq_iff k c) in
    let most' : AtMost c names = rw same at most in
    rw same (
      AtMost-names_after c all_names (with_name c names) parts (rw same at h) named.1
        (AtMost-with_name c names most'))

column_names-one :
    (k : Text) (parts : List IdPart)
    → all_in (k ∷ []) (column_names parts) ≡ true
    → column_names parts ≢ []
    → column_names parts ≡ k ∷ []
unfolding column_names
column_names-one k parts h some_name =
    elim (AtMost-names_after k (names_after [] parts) [] parts h (Names-names_after [] parts)
      (inl refl)) [ inl none_named ↦ absurd (some_name none_named) | inr one ↦ one ]

abbrev pub IsScalar : Value → Type 0
IsScalar null = ⊥
IsScalar (object fields) = ⊥
IsScalar _ = Unit

-- The key of a row: an object that agrees with the row on the key's columns, or the value of the one
-- column that the key has.
pub data KeyOf (keys : List Text) (doc : Fields) : Value → Type 0 where
  composite :
      {key : Fields}
      → ((k : Text) → in_texts k keys ≡ true → get_field k key ≡ get_field k doc)
      → KeyOf keys doc (object key)
  single :
      {k : Text} {v : Value}
      → keys ≡ k ∷ []
      → IsScalar v
      → get_field k doc ≡ some v
      → KeyOf keys doc v

one_field :
    (k k' : Text) (v : Value) (doc : Fields)
    → in_texts k' (k ∷ []) ≡ true
    → get_field k doc ≡ some v
    → get_field k' (field k v end) ≡ get_field k' doc
unfolding in_texts get_field
one_field k k' v doc h held =
    let same : k ≡ k' = ground (arith, text_eq_iff k k') in
    rw (← same) (rw (text_eq_refl k) (sym held))

module _ (to_json : Value → Text) (keys : List Text) (t : IdTemplate) (doc : Fields)
    (listed : all_in keys (column_names t.parts) ≡ true) where
  render_template-composite :
      (key : Fields)
      → ((k : Text) → in_texts k keys ≡ true → get_field k key ≡ get_field k doc)
      → render_template to_json t (object key) ≡ render_template to_json t (object doc)
  unfolding render_template column_names
  render_template-composite key alike =
      render_parts-alike to_json keys key doc alike (column_names t.parts) t.parts [] listed
        (Names-names_after [] t.parts)

  render_scalar-one :
      (k : Text) (v : Value)
      → t.pk_only ≡ true
      → column_names t.parts ≢ []
      → keys ≡ k ∷ []
      → get_field k doc ≡ some v
      → render_scalar to_json t (column_names t.parts) v ≡ render_template to_json t (object doc)
  unfolding render_scalar render_template
  render_scalar-one k v only some_name one held =
      rw (column_names-one k t.parts (rw one at listed) some_name, only)
        (render_template-composite (field k v end) (λ k' h. in_key k' (rw one at h)))
    where
      in_key :
          (k' : Text)
          → in_texts k' (k ∷ []) ≡ true
          → get_field k' (field k v end) ≡ get_field k' doc
      in_key k' h = one_field k k' v doc h held

  render_template_from_pk-KeyOf :
      {pk : Value}
      → t.pk_only ≡ true
      → column_names t.parts ≢ []
      → KeyOf keys doc pk
      → render_template_from_pk to_json t pk ≡ render_template to_json t (object doc)
  unfolding render_template_from_pk
  render_template_from_pk-KeyOf only some_name (composite {key} alike) =
      render_template-composite key alike
  render_template_from_pk-KeyOf only some_name (single {k} {v} one scalar held) =
      by_value v scalar held
    where
      by_value :
          (w : Value)
          → IsScalar w
          → get_field k doc ≡ some w
          → render_template_from_pk to_json t w ≡ render_template to_json t (object doc)
      by_value null scalar' held' = absurd scalar'
      by_value (object fields) scalar' held' = absurd scalar'
      by_value (bool b) scalar' held' = render_scalar-one k (bool b) only some_name one held'
      by_value (number n) scalar' held' = render_scalar-one k (number n) only some_name one held'
      by_value (string s) scalar' held' = render_scalar-one k (string s) only some_name one held'
      by_value (array items) scalar' held' =
          render_scalar-one k (array items) only some_name one held'

-- A template that names some column, and only columns of the key, renders from a row's key what it
-- renders from the row: a delete finds the document that the row was written to.
pub parse_template-KeyOf :
    (to_json : Value → Text) (spec : Text) (keys : List Text) (t : IdTemplate) (doc : Fields)
    (pk : Value)
    → parse_template spec keys ≡ done t
    → t.pk_only ≡ true
    → column_names t.parts ≢ []
    → KeyOf keys doc pk
    → render_template_from_pk to_json t pk ≡ render_template to_json t (object doc)
parse_template-KeyOf to_json spec keys t doc pk parsed only some_name key =
    let (spelled, named, decided) = parse_template-written spec keys t parsed in
    render_template_from_pk-KeyOf to_json keys t doc (sym decided ∙ only) only some_name key
