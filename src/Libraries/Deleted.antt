-- ===== src/Libraries/Deleted.antt =====
-- A run whose library was deleted while it waited.
use Prim.Native.Nat.{Ordering}
use Prim.Native.String.{compare}
use py_runner.Prelude.{
  ℕ, ◌≡◌, ◌⊎◌, refl, sym, ap, ◌∙◌, inl, inr, String, Bool-cases, none, some, List, [], ◌∷◌,
}
use py_runner.Filters.Grammar.{codes}
use py_runner.Libraries.{library_key_re, Library}
use py_runner.Libraries.Validation.{Sum-cases, inl_not_inr}
use py_runner.Libraries.Materialize.{
  MaterializationError, illegal_key, no_longer_exists, find_library, resolve_revision, insert_item,
  sorted_items, write_package, package_of, packages_of, materialize_libraries,
}
use py_runner.Libraries.Waiting.{without, find_library-gone}

-- an item is among the stamped versions
abbrev pub Stamped : String × ℕ → List (String × ℕ) → Type 0
Stamped item [] = ⊥
Stamped item (next ∷ rest) = (item ≡ next) ⊎ Stamped item rest

-- materialisation raised
abbrev pub Fails : {A : Type 0} → MaterializationError ⊎ A → Type 0
Fails {A = A} result = (e : MaterializationError) × (result ≡ inl e)

by_order-Stamped :
    (o : Ordering) (item : String × ℕ) (xs ys : List (String × ℕ))
    → Stamped item xs
    → Stamped item ys
    → Stamped item (elim o [ Ordering.gt ↦ ys | _ ↦ xs ])
by_order-Stamped Ordering.lt item xs ys h g = h
by_order-Stamped Ordering.eq item xs ys h g = h
by_order-Stamped Ordering.gt item xs ys h g = g

insert_item-Stamped :
    (item new : String × ℕ) (items : List (String × ℕ))
    → (item ≡ new) ⊎ Stamped item items
    → Stamped item (insert_item new items)
insert_item-Stamped item new [] m = m
insert_item-Stamped item new (next ∷ rest) m =
    by_order-Stamped (compare new.0 next.0) item (new ∷ next ∷ rest) (next ∷ insert_item new rest) m
      (elim m [
        | inl e ↦ inr (insert_item-Stamped item new rest (inl e))
        | inr later ↦ elim later [
          | inl e ↦ inl e
          | inr i ↦ inr (insert_item-Stamped item new rest (inr i))
        ]
      ])

sorted_items-Stamped :
    (item : String × ℕ) (items : List (String × ℕ))
    → Stamped item items
    → Stamped item (sorted_items items)
unfolding sorted_items
sorted_items-Stamped item [] m = m
sorted_items-Stamped item (next ∷ rest) m =
    insert_item-Stamped item next (sorted_items rest)
      (elim m [ inl e ↦ inl e | inr i ↦ inr (sorted_items-Stamped item rest i) ])

resolve_revision-gone :
    (libraries : List Library) (key : String) (version : ℕ)
    → find_library key libraries ≡ none
    → resolve_revision libraries key version ≡ none
unfolding resolve_revision
resolve_revision-gone libraries key version gone = rw (resolve_revision, gone) refl

package_of-gone :
    (libraries : List Library) (key : String) (version : ℕ)
    → find_library key libraries ≡ none
    → Fails (package_of libraries key version)
unfolding package_of
package_of-gone libraries key version gone = elim (Bool-cases (library_key_re (codes key))) [
  | inr f ↦ (illegal_key key, rw (package_of, f) refl)
  | inl t ↦ (
    no_longer_exists key version,
    rw (package_of, t)
        (ap (write_package key version) (resolve_revision-gone libraries key version gone)),
  )
]

packages_of-gone :
    (libraries : List Library) (key : String) (version : ℕ) (items : List (String × ℕ))
    → find_library key libraries ≡ none
    → Stamped (key, version) items
    → Fails (packages_of libraries items)
unfolding packages_of
packages_of-gone libraries key version [] gone m = absurd m
packages_of-gone libraries key version ((name, number) ∷ rest) gone m =
    elim (Sum-cases (package_of libraries name number)) [
      | inl (e, q) ↦ (e, rw (packages_of, q) refl)
      | inr (written, q) ↦ elim m [
        | inl same ↦
            let (e, failed) = package_of-gone libraries key version gone in
            absurd (inl_not_inr (sym failed ∙ ap (λ i. package_of libraries i.0 i.1) same ∙ q))
        | inr i ↦
            let (e, failed) = packages_of-gone libraries key version rest gone i in
            (e, rw (packages_of, q, failed) refl)
      ]
    ]

-- A run whose stamp names a library that is deleted, from any libraries, imports nothing: it fails,
-- whatever version was stamped and whichever other libraries are there.
pub materialize_libraries-deleted :
    (libraries : List Library) (stamped : List (String × ℕ)) (key : String) (version : ℕ)
    → Stamped (key, version) stamped
    → Fails (materialize_libraries (without key libraries) (some stamped))
unfolding materialize_libraries
materialize_libraries-deleted libraries stamped key version m =
    packages_of-gone (without key libraries) key version (sorted_items stamped)
      (find_library-gone key libraries) (sorted_items-Stamped (key, version) stamped m)
