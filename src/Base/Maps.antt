-- ===== src/Base/Maps.antt =====
-- A Go map with string keys: an association list in which each key stands once.
use Prim.Native.String.{String}
use mathlib.Core.Path.{◌≡◌, refl, sym, ◌∙◌, subst}
use mathlib.Core.Logic.{inl, inr}
use mathlib.Core.List.{List, [], ◌∷◌}
use mathlib.Core.Option.{Option, none, some}
use native.Mathlib.Omega.{arith}
use text.Mathlib.Text.{◌==◌}
use text.Mathlib.TextEquality.{eq_iff}
use text.Mathlib.TextPositions.{eq_refl}
use distributed_task_queue_s.Base.Tests.{if◌then◌else◌, Bool-cases}

abbrev pub Dict {ℓ} : Type ℓ → Type ℓ
Dict V = List (String × V)

abbrev pub or_default {ℓ} : {V : Type ℓ} → V → Option V → V
or_default d none = d
or_default d (some v) = v

module _ {ℓ} {V : Type ℓ} where
  unfoldable pub lookup : String → Dict V → Option V
  lookup key [] = none
  lookup key ((name, value) ∷ rest) =
      let found = lookup key rest in if name == key then some value else found

  -- Reading a missing key of a Go map gives the zero value of its type.
  abbrev pub lookup_or : V → String → Dict V → V
  lookup_or zero_value key dict = or_default zero_value (lookup key dict)

  unfoldable pub delete : String → Dict V → Dict V
  delete key [] = []
  delete key ((name, value) ∷ rest) =
      let others = delete key rest in if name == key then others else (name, value) ∷ others

  -- An assignment writes over the entry of the key, or adds one.
  unfoldable pub insert : String → V → Dict V → Dict V
  insert key new [] = (key, new) ∷ []
  insert key new ((name, value) ∷ rest) =
      let others = insert key new rest in
      if name == key then (key, new) ∷ rest else (name, value) ∷ others

  abbrev pub values : Dict V → List V
  values [] = []
  values ((name, value) ∷ rest) = value ∷ values rest

  pub lookup-delete :
      (key other : String) (dict : Dict V)
      → lookup other (delete key dict) ≡ (if key == other then none else lookup other dict)
  unfolding lookup delete
  lookup-delete key other [] = ground arith
  lookup-delete key other ((name, value) ∷ rest) =
      ground
        (arith, lookup-delete key other rest, eq_iff name key, eq_iff name other, eq_iff key other)

  pub lookup-insert :
      (key other : String) (new : V) (dict : Dict V)
      → lookup other (insert key new dict) ≡ (if key == other then some new else lookup other dict)
  unfolding lookup insert
  lookup-insert key other new [] = refl
  lookup-insert key other new ((name, value) ∷ rest) = ground (
    arith,
    lookup-insert key other new rest,
    eq_iff name key,
    eq_iff name other,
    eq_iff key other,
  )

  pub lookup-insert_self :
      (key : String) (new : V) (dict : Dict V) → lookup key (insert key new dict) ≡ some new
  lookup-insert_self key new dict = simp (eq_refl, lookup-insert)

  -- Every value of the map satisfies the predicate.
  abbrev pub Everywhere {κ} : (V → Type κ) → Dict V → Type (ℓ ⊔ κ)
  Everywhere P dict = (key : String) (value : V) → lookup key dict ≡ some value → P value

  pub insert-Everywhere {κ} :
      (P : V → Type κ) (key : String) (new : V) (dict : Dict V)
      → Everywhere P dict
      → P new
      → Everywhere P (insert key new dict)
  insert-Everywhere P key new dict all p other value e = elim (Bool-cases (key == other)) [
    | inl same ↦ own (sym (lookup-insert key other new dict ∙ rw same) ∙ e)
    | inr ne ↦ all other value (sym (lookup-insert key other new dict ∙ rw ne) ∙ e)
  ]
    where
      own : some new ≡ some value → P value
      own f = subst P (cc) p

  pub delete-Everywhere {κ} :
      (P : V → Type κ) (key : String) (dict : Dict V)
      → Everywhere P dict
      → Everywhere P (delete key dict)
  delete-Everywhere P key dict all other value e = elim (Bool-cases (key == other)) [
    | inl same ↦ absurd (gone (sym (lookup-delete key other dict ∙ rw same) ∙ e))
    | inr ne ↦ all other value (sym (lookup-delete key other dict ∙ rw ne) ∙ e)
  ]
    where
      gone : none ≡ some value → ⊥
      gone f = absurd (cc)
