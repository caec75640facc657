-- ===== src/Viewer/Fonts/Texts.antt =====
-- Lists with a property of each member, and the sets of texts of rust/assets/hep-viewer.js.
use ggsql_duckdb.Prelude.{
  ℕ, zero, suc, ◌≡◌, refl, subst, inl, inr, true, false, ◌||◌, some, List, [], ◌∷◌, ◌++◌, text_eq,
  text_eq_iff, text_eq_self, get_elem?, set, Bool-cases, arith,
}
use ggsql_duckdb.Boot.Init.{Text}
use ggsql_duckdb.Viewer.Fonts.{contains_text, add_text, add_texts, has_element}

abbrev pub All {ℓ κ} : {A : Type ℓ} → (A → Type κ) → List A → Type κ
All P [] = Unit
All P (x ∷ xs) = P x × All P xs

module _ {ℓ κ} {A : Type ℓ} (P : A → Type κ) where
  pub All-append : (xs ys : List A) → All P xs → All P ys → All P (xs ++ ys)
  All-append [] ys hx hy = hy
  All-append (x ∷ xs) ys hx hy = (hx.0, All-append xs ys hx.1 hy)

  pub All-set : (xs : List A) (i : ℕ) (v : A) → All P xs → P v → All P (set xs i v)
  All-set [] i v h p = h
  All-set (x ∷ xs) zero v h p = (p, h.1)
  All-set (x ∷ xs) (suc i) v h p = (h.0, All-set xs i v h.1 p)

  pub All-get_elem? : (xs : List A) (i : ℕ) {x : A} → All P xs → get_elem? xs i ≡ some x → P x
  All-get_elem? [] i h e = absurd (cc)
  All-get_elem? (y ∷ ys) zero h e = subst P (cc) h.0
  All-get_elem? (y ∷ ys) (suc i) h e = All-get_elem? ys i h.1 e

pub All-map {ℓ κ} :
    {A : Type ℓ} (P Q : A → Type κ) (xs : List A) → ((x : A) → P x → Q x) → All P xs → All Q xs
All-map P Q [] f h = tt
All-map P Q (x ∷ xs) f h = (f x h.0, All-map P Q xs f h.1)

-- No text stands twice.
abbrev pub IsDistinct : List Text → Type 0
IsDistinct [] = Unit
IsDistinct (x ∷ xs) = (contains_text x xs ≡ false) × IsDistinct xs

pub contains_text-append :
    (x : Text) (s t : List Text)
    → contains_text x (s ++ t) ≡ (contains_text x s || contains_text x t)
contains_text-append x [] t = refl
contains_text-append x (y ∷ s) t = ground (arith, contains_text-append x s t)

pub contains_text-add_text :
    (x k : Text) (s : List Text) → contains_text k s ≡ true → contains_text k (add_text x s) ≡ true
contains_text-add_text x k s h = ground (arith, contains_text-append k s (x ∷ []))

pub contains_text-add_self : (x : Text) (s : List Text) → contains_text x (add_text x s) ≡ true
contains_text-add_self x s = ground (arith, contains_text-append x s (x ∷ []), text_eq_self x)

text_eq_comm : (x y : Text) → text_eq x y ≡ false → text_eq y x ≡ false
text_eq_comm x y h = ground (arith, text_eq_iff x y, text_eq_iff y x)

IsDistinct-append :
    (s : List Text) (x : Text)
    → IsDistinct s
    → contains_text x s ≡ false
    → IsDistinct (s ++ (x ∷ []))
IsDistinct-append [] x d h = (refl, tt)
IsDistinct-append (y ∷ s) x d h = (
  ground (arith, contains_text-append y s (x ∷ []), text_eq_comm x y, d.0),
  IsDistinct-append s x d.1 (ground arith),
)

pub IsDistinct-add_text : (x : Text) (s : List Text) → IsDistinct s → IsDistinct (add_text x s)
IsDistinct-add_text x s d = elim (Bool-cases (contains_text x s)) [
  | inl e ↦ rw e d
  | inr e ↦ rw e (IsDistinct-append s x d e)
]

pub IsDistinct-add_texts : (xs s : List Text) → IsDistinct s → IsDistinct (add_texts xs s)
IsDistinct-add_texts [] s d = d
IsDistinct-add_texts (x ∷ xs) s d =
    IsDistinct-add_texts xs (add_text x s) (IsDistinct-add_text x s d)

pub has_element-append :
    (name : Text) (s t : List (Text × Text))
    → has_element name (s ++ t) ≡ (has_element name s || has_element name t)
has_element-append name [] t = refl
has_element-append name ((x, _) ∷ s) t = ground (arith, has_element-append name s t)

pub has_element-add_text :
    (x k : Text) (s : List Text) (t : List (Text × Text)) (v : Text)
    → (contains_text k s ≡ true → has_element k t ≡ true)
    → contains_text k (add_text x s) ≡ true
    → has_element k (t ++ ((x, v) ∷ [])) ≡ true
has_element-add_text x k s t v h e =
    ground (arith, contains_text-append k s (x ∷ []), has_element-append k t ((x, v) ∷ []))
