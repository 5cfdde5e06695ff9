-- ===== src/Catalog/Methods/Invariant.antt =====
-- The invariant of the catalog of bridge/src/catalog/store.rs, and the steps that keep it.
use thatsmatter.Base.{
  ℕ, ◌≤◌, ◌≡◌, false, [], ◌∷◌, some, arith, ◌==◌, ok, Bool-cases, inl, inr, subst,
}
use thatsmatter.Base.Text.{Text, len, is_empty}
use thatsmatter.Base.Map
use thatsmatter.Base.Map.{get-insert, get-remove, insert-IsSorted, remove-IsSorted}
use thatsmatter.Catalog.Model.{Export}
use thatsmatter.Catalog.Alloc.{u16_max}
use thatsmatter.Catalog.Store.{CatalogStore, validate_export_fields}

pub record IsValidText (limit : ℕ) (t : Text) : Type 0 where
  pub nonempty : 1 ≤ len t
  pub fits : len t ≤ limit

pub record IsValidExport (e : Export) : Type 0 where
  pub name : IsValidText 64 e.name
  pub primary : 1 ≤ len e.primary_entity_id

pub record HasEndpoint (e : Export) : Type 0 where
  pub id : ℕ
  pub assigned : e.endpoint_id ≡ some id
  pub positive : 1 ≤ id
  pub fits : id ≤ u16_max

pub record IsWellFormed (s : CatalogStore) : Type 0 where
  pub sorted : Map.IsSorted s.by_id
  pub keyed : (k : ℕ) (e : Export) → Map.get k s.by_id ≡ some e → e.export_id ≡ k
  pub valid : (k : ℕ) (e : Export) → Map.get k s.by_id ≡ some e → IsValidExport e
  pub distinct :
      (j k : ℕ) (d e : Export) (p : ℕ)
      → Map.get j s.by_id ≡ some d
      → Map.get k s.by_id ≡ some e
      → d.endpoint_id ≡ some p
      → e.endpoint_id ≡ some p
      → j ≡ k
  pub assigned : (k : ℕ) (e : Export) → Map.get k s.by_id ≡ some e → HasEndpoint e
  pub next_fits : s.next_endpoint ≤ u16_max

pub len-pos : (t : Text) → is_empty t ≡ false → 1 ≤ len t
len-pos [] h = absurd (ground arith)
len-pos (c ∷ t) h = ground arith

pub validate-IsValidExport :
    (e : Export) → validate_export_fields e.name e.primary_entity_id ≡ ok tt → IsValidExport e
unfolding validate_export_fields
validate-IsValidExport e h = ground (arith, len-pos e.name, len-pos e.primary_entity_id)

module _ {s : CatalogStore} (w : IsWellFormed s) where
  pub next-IsWellFormed : (n : ℕ) → n ≤ u16_max → IsWellFormed (record s { next_endpoint = n })
  next-IsWellFormed n h = record {
    sorted = w.sorted;
    keyed = w.keyed;
    valid = w.valid;
    distinct = w.distinct;
    assigned = w.assigned;
    next_fits = h;
  }

  pub name-IsWellFormed : (t : Text) → IsWellFormed (record s { bridge_name = t })
  name-IsWellFormed t = record {
    sorted = w.sorted;
    keyed = w.keyed;
    valid = w.valid;
    distinct = w.distinct;
    assigned = w.assigned;
    next_fits = w.next_fits;
  }

  pub remove-IsWellFormed : (k : ℕ) → IsWellFormed (record s { by_id = Map.remove k s.by_id })
  remove-IsWellFormed k = record {
    sorted = remove-IsSorted k s.by_id w.sorted;
    keyed = λ j e g. ground (arith, get-remove k j s.by_id, w.keyed j e);
    valid = λ j e g. w.valid j e (ground (arith, get-remove k j s.by_id));
    distinct = λ i j d e p g h.
        w.distinct i j d e p (ground (arith, get-remove k i s.by_id))
          (ground (arith, get-remove k j s.by_id));
    assigned = λ j e g. w.assigned j e (ground (arith, get-remove k j s.by_id));
    next_fits = w.next_fits;
  }

  -- An entry under its own id, valid, whose endpoint no entry with another id has.
  pub insert-IsWellFormed :
      (k : ℕ) (e : Export)
      → e.export_id ≡ k
      → IsValidExport e
      → HasEndpoint e
      → ((j : ℕ) (d : Export) (p : ℕ)
          → Map.get j s.by_id ≡ some d
          → d.endpoint_id ≡ some p
          → e.endpoint_id ≡ some p
          → j ≡ k)
      → IsWellFormed (record s { by_id = Map.insert k e s.by_id })
  insert-IsWellFormed k e own v h apart = record {
    sorted = insert-IsSorted k e s.by_id w.sorted;
    keyed = λ j x g. ground (arith, get-insert k j e s.by_id, w.keyed j x);
    valid = λ j x g. elim (Bool-cases (k == j)) [
      | inl here ↦ subst IsValidExport (ground (arith, get-insert k j e s.by_id)) v
      | inr there ↦ w.valid j x (ground (arith, get-insert k j e s.by_id))
    ];
    assigned = λ j x g. elim (Bool-cases (k == j)) [
      | inl here ↦ subst HasEndpoint (ground (arith, get-insert k j e s.by_id)) h
      | inr there ↦ w.assigned j x (ground (arith, get-insert k j e s.by_id))
    ];
    distinct = λ i j c d p g g' gp hp. ground (
      arith,
      get-insert k i e s.by_id,
      get-insert k j e s.by_id,
      w.distinct i j c d p,
      apart i c p,
      apart j d p,
    );
    next_fits = w.next_fits;
  }
