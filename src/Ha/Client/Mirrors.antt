-- ===== src/Ha/Client/Mirrors.antt =====
-- When an export of the bridge says what Home Assistant's says: the bodies of
-- custom_components/thatsmatter/bridge_client.py and what the bridge makes of them.
use thatsmatter.Base.{
  ℕ, ◌≡◌, refl, ap, ◌∙◌, Bool, true, false, not, List, [], ◌∷◌, Option, none, some, arith, inl, inr,
  Option-cases, Bool-cases, bool_ne,
}
use thatsmatter.Base.Text.{Text, text_eq, text_eq→eq}
use thatsmatter.Catalog.Model.{Export}
use thatsmatter.Catalog.Store.{CreateExport, PatchExport}
use thatsmatter.Catalog.Methods.{unwrap_or}
use thatsmatter.Catalog.Methods.Create.{new_export}
use thatsmatter.Catalog.Methods.Effects.{overwritten}
use thatsmatter.Ha.Models.{HaExport, wire_name, read_type, wire_name-read_type}
use thatsmatter.Ha.Client.{
  create_export_body, read_patch, difference, with_type, dict_eq, optional_eq, is_empty_patch,
  unless,
}

-- The bridge's export says what Home Assistant's says, but for the endpoint.
pub record Mirrors (l : HaExport) (e : Export) : Type 0 where
  pub export_id : e.export_id ≡ l.export_id
  pub name : e.name ≡ l.name
  pub type_ : wire_name e.type_ ≡ l.type_
  pub primary_entity_id : e.primary_entity_id ≡ l.primary_entity_id
  pub linked : e.linked ≡ l.linked
  pub area_id : e.area_id ≡ l.area_id
  pub enabled : e.enabled ≡ l.enabled

dict_eq→eq : (xs ys : List (Text × Text)) → dict_eq xs ys ≡ true → xs ≡ ys
dict_eq→eq [] [] h = refl
dict_eq→eq [] (y ∷ ys) h = cc
dict_eq→eq (x ∷ xs) [] h = cc
dict_eq→eq ((k, v) ∷ xs) ((j, w) ∷ ys) h =
    ground (arith, text_eq→eq k j, text_eq→eq v w, dict_eq→eq xs ys)

optional_eq→eq : (s t : Option Text) → optional_eq s t ≡ true → s ≡ t
optional_eq→eq none none h = refl
optional_eq→eq none (some t) h = cc
optional_eq→eq (some s) none h = cc
optional_eq→eq (some s) (some t) h = ground (arith, text_eq→eq s t)

-- A field that is sent unless it is the same ends up as the local one.
unless-eq :
    {A : Type 0} (same : Bool) (remote local : A)
    → (same ≡ true → remote ≡ local)
    → unwrap_or (unless same local) remote ≡ local
unless-eq true remote local h = h refl
unless-eq false remote local h = refl

-- The device type that a patch leaves.
patched_type :
    (l : HaExport) (b : Export) (body : PatchExport)
    → read_patch (difference b l) ≡ some body
    → (wire_name (unwrap_or body.type_ b.type_) ≡ l.type_)
      × (body ≡ with_type (difference b l) body.type_)
unfolding read_patch difference with_type
patched_type l b body h = elim (Bool-cases (text_eq (wire_name b.type_) l.type_)) [
  | inl same ↦ let h' = rw same at h in ground (arith, text_eq→eq (wire_name b.type_) l.type_)
  | inr other ↦ elim (Option-cases (read_type l.type_)) [
    | inl unknown ↦ absurd (ground arith)
    | inr (t, known) ↦ ground (arith, wire_name-read_type l.type_ t known)
  ]
]

pub read_patch-Mirrors :
    (l : HaExport) (b : Export) (body : PatchExport)
    → b.export_id ≡ l.export_id
    → read_patch (difference b l) ≡ some body
    → Mirrors l (overwritten body b)
unfolding difference with_type
read_patch-Mirrors l b body own h =
    let (t, same) = patched_type l b body h in
    record {
      export_id = own;
      type_ = t;
      name =
          ap (λ (p : PatchExport). unwrap_or p.name b.name) same
          ∙ unless-eq (text_eq b.name l.name) b.name l.name (text_eq→eq b.name l.name);
      primary_entity_id =
          ap (λ (p : PatchExport). unwrap_or p.primary_entity_id b.primary_entity_id) same
          ∙ unless-eq (text_eq b.primary_entity_id l.primary_entity_id) b.primary_entity_id
              l.primary_entity_id (text_eq→eq b.primary_entity_id l.primary_entity_id);
      linked =
          ap (λ (p : PatchExport). unwrap_or p.linked b.linked) same
          ∙ unless-eq (dict_eq b.linked l.linked) b.linked l.linked (dict_eq→eq b.linked l.linked);
      area_id =
          ap (λ (p : PatchExport). unwrap_or p.area_id b.area_id) same
          ∙ unless-eq (optional_eq b.area_id l.area_id) b.area_id l.area_id
              (optional_eq→eq b.area_id l.area_id);
      enabled =
          ap (λ (p : PatchExport). unwrap_or p.enabled b.enabled) same
          ∙ unless-eq (not (bool_ne b.enabled l.enabled)) b.enabled l.enabled (λ e. ground arith);
    }

pub create_export_body-Mirrors :
    (l : HaExport) (body : CreateExport)
    → create_export_body l ≡ some body
    → (body.export_id ≡ some l.export_id) × ((p : ℕ) → Mirrors l (new_export body l.export_id p))
unfolding create_export_body
create_export_body-Mirrors l body h = elim (Option-cases (read_type l.type_)) [
  | inl unknown ↦ absurd (ground arith)
  | inr (t, known) ↦
      let named = wire_name-read_type l.type_ t known in (ground arith, λ p. ground arith)
]

pub empty-Mirrors :
    (l : HaExport) (b : Export)
    → b.export_id ≡ l.export_id
    → is_empty_patch (difference b l) ≡ true
    → Mirrors l b
unfolding is_empty_patch difference
empty-Mirrors l b own h = ground (
  arith,
  text_eq→eq b.name l.name,
  text_eq→eq (wire_name b.type_) l.type_,
  text_eq→eq b.primary_entity_id l.primary_entity_id,
  dict_eq→eq b.linked l.linked,
  optional_eq→eq b.area_id l.area_id,
)
