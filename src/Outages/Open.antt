-- ===== src/Outages/Open.antt =====
-- Outages that have an owner and are open or over: at most one is open for each owner.
use asdl_hub.Prelude.{
  ◌+◌, ◌≤◌, ◌≡◌, refl, ap, Bool, true, false, ◌&&◌, List, [], ◌∷◌, ◌++◌, arith, ◌==◌, length,
  select, update, any, length-select-update_le,
}
use asdl_hub.Models.{Ident}

module _ {A : Type 0} (owner : A → Ident) (is_open : A → Bool) where
  abbrev pub open_of : Ident → A → Bool
  open_of id x = owner x == id && is_open x

  abbrev pub OneOpen : List A → Type 0
  OneOpen t = (id : Ident) → length (select (open_of id) t) ≤ 1

  none_selected : (p : A → Bool) (t : List A) → any p t ≡ false → select p t ≡ []
  none_selected p [] h = refl
  none_selected p (x ∷ t) h = ground (arith, none_selected p t)

  length-select-append :
      (p : A → Bool) (s t : List A)
      → length (select p (s ++ t)) ≡ length (select p s) + length (select p t)
  length-select-append p [] t = omega arith
  length-select-append p (x ∷ s) t = ground (arith, length-select-append p s t)

  pub add-OneOpen :
      (o : A) (t : List A) → any (open_of (owner o)) t ≡ false → OneOpen t → OneOpen (t ++ o ∷ [])
  add-OneOpen o t free one id = ground (
    arith,
    length-select-append (open_of id) t (o ∷ []),
    one id,
    ap length (none_selected (open_of (owner o)) t free),
  )

  -- What opens nothing keeps it.
  pub update-OneOpen :
      (p : A → Bool) (f : A → A) (t : List A)
      → ((x : A) → (is_open (f x) ≡ true → is_open x ≡ true) × (owner (f x) ≡ owner x))
      → OneOpen t
      → OneOpen (update p f t)
  update-OneOpen p f t closes one id = ground (
    arith,
    one id,
    length-select-update_le (open_of id) p f t (λ x m hit now. ground (arith, closes x)),
  )
