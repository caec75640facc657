-- ===== src/Glue/FreedOnce.antt =====
-- Every block of the wasm side that rust/assets/hep-viewer.js wraps is freed once at most, and none
-- is lost.
use ggsql_duckdb.Prelude.{
  ℕ, zero, suc, ◌+◌, ◌<◌, ◌≡◌, refl, sym, ap, ◌∙◌, ◌≢◌, ◌⊎◌, inl, inr, Bool-cases, length,
  get_elem?-set_self, true, false, Option, none, some, List, [], ◌∷◌, ◌++◌, ◌==◌, get_elem?, set,
  if◌then◌else◌, arith,
}
use ggsql_duckdb.Glue.Owned.{
  Wrapper, Blocks, of_block, of_null, give_back, account, wrap, destroy_into_raw, free_object,
  collect, finalize, wraps, frees, collects, Reach, here, next,
}

abbrev pub weight : Option ℕ → ℕ → ℕ
weight none p = 0
weight (some q) p = if p == q then 1 else 0

-- How many objects the registry holds the address for.
abbrev pub holders : List Wrapper → ℕ → ℕ
holders [] p = 0
holders (w ∷ ws) p = weight w.held p + holders ws p

-- An object that can be reached is registered with its own pointer, or has been freed.
abbrev IsOwner : Wrapper → Type 0
IsOwner w = w.collected ≡ false → w.held ≡ (if w.ptr == 0 then none else some w.ptr)

abbrev AreOwners : List Wrapper → Type 0
AreOwners [] = Unit
AreOwners (w ∷ ws) = IsOwner w × AreOwners ws

record IsOwned (s : Blocks) : Type 0 where
  counted : (p : ℕ) → s.live p ≡ holders s.objects p
  owners : AreOwners s.objects

get_elem?-lt : (ws : List Wrapper) (i : ℕ) (w : Wrapper) → get_elem? ws i ≡ some w → i < length ws
get_elem?-lt [] i w e = cc
get_elem?-lt (x ∷ ws) zero w e = omega arith
get_elem?-lt (x ∷ ws) (suc i) w e = omega (arith, get_elem?-lt ws i w e)

holders-append :
    (ws : List Wrapper) (w : Wrapper) (p : ℕ)
    → holders (ws ++ (w ∷ [])) p ≡ weight w.held p + holders ws p
holders-append [] w p = omega arith
holders-append (v ∷ ws) w p = omega (arith, holders-append ws w p)

holders-set :
    (ws : List Wrapper) (i : ℕ) (w v : Wrapper) (p : ℕ)
    → get_elem? ws i ≡ some w
    → holders (set ws i v) p + weight w.held p ≡ holders ws p + weight v.held p
holders-set [] i w v p e = cc
holders-set (x ∷ ws) zero w v p e = let same : x ≡ w = cc in rw (same) (omega arith)
holders-set (x ∷ ws) (suc i) w v p e = omega (arith, holders-set ws i w v p e)

AreOwners-append :
    (ws : List Wrapper) (w : Wrapper) → AreOwners ws → IsOwner w → AreOwners (ws ++ (w ∷ []))
AreOwners-append [] w a o = (o, tt)
AreOwners-append (v ∷ ws) w (h, a) o = (h, AreOwners-append ws w a o)

AreOwners-set :
    (ws : List Wrapper) (i : ℕ) (v : Wrapper) → AreOwners ws → IsOwner v → AreOwners (set ws i v)
AreOwners-set [] i v a o = tt
AreOwners-set (x ∷ ws) zero v (h, a) o = (o, a)
AreOwners-set (x ∷ ws) (suc i) v (h, a) o = (h, AreOwners-set ws i v a o)

AreOwners-get :
    (ws : List Wrapper) (i : ℕ) (w : Wrapper) → AreOwners ws → get_elem? ws i ≡ some w → IsOwner w
AreOwners-get [] i w a e = cc
AreOwners-get (x ∷ ws) zero w (h, a) e = let same : x ≡ w = cc in rw (← same) h
AreOwners-get (x ∷ ws) (suc i) w (h, a) e = AreOwners-get ws i w a e

account-live :
    (ptr : ℕ) (live : ℕ → ℕ)
    → ptr ≢ 0
    → live ptr ≢ 0
    → account ptr live ≡ (of_block, give_back ptr live)
account-live ptr live n l = ground arith

-- Taking a held block back: it is there, and the counts still agree.
account-held :
    (s : Blocks) (i : ℕ) (w v : Wrapper) (ptr : ℕ)
    → IsOwned s
    → get_elem? s.objects i ≡ some w
    → w.held ≡ some ptr
    → ptr ≢ 0
    → v.held ≡ none
    → ((account ptr s.live).0 ≡ of_block)
      × ((p : ℕ) → (account ptr s.live).1 p ≡ holders (set s.objects i v) p)
account-held s i w v ptr o e h n u =
    let count : (p : ℕ)
        → holders (set s.objects i v) p + weight (some ptr) p ≡ holders s.objects p + 0 =
      λ p.
        ap (λ x. holders (set s.objects i v) p + weight x p) (sym h)
        ∙ holders-set s.objects i w v p e
        ∙ ap (λ x. holders s.objects p + weight x p) u in
    let there : s.live ptr ≢ 0 = ground (arith, o.counted ptr, count ptr) in
    let taken = account-live ptr s.live n there in
    (ap (λ r. r.0) taken, λ p. ap (λ r. r.1 p) taken ∙ ground (arith, o.counted p, count p))

-- Where the registry holds nothing, nothing changes.
holders-none :
    (s : Blocks) (i : ℕ) (w v : Wrapper)
    → IsOwned s
    → get_elem? s.objects i ≡ some w
    → w.held ≡ none
    → v.held ≡ none
    → (p : ℕ) → s.live p ≡ holders (set s.objects i v) p
holders-none s i w v o e h u p =
    let count : holders (set s.objects i v) p + 0 ≡ holders s.objects p + 0 =
      ap (λ x. holders (set s.objects i v) p + weight x p) (sym h)
      ∙ holders-set s.objects i w v p e
      ∙ ap (λ x. holders s.objects p + weight x p) u in
    omega (arith, o.counted p, count)

-- An object that can be reached has been freed, or is registered.
owner-cases :
    (s : Blocks) (i : ℕ) (w : Wrapper)
    → IsOwned s
    → get_elem? s.objects i ≡ some w
    → w.collected ≡ false
    → ((w.ptr ≡ 0) × (w.held ≡ none)) ⊎ ((w.ptr ≢ 0) × (w.held ≡ some w.ptr))
owner-cases s i w o e c =
    let q = AreOwners-get s.objects i w o.owners e c in
    elim (Bool-cases (w.ptr == 0)) [
      | inl z ↦ inl (ground arith, q ∙ rw (z) refl)
      | inr z ↦ inr ((λ x. ground arith), q ∙ rw (z) refl)
    ]

free_object-IsOwned :
    (s : Blocks) (i : ℕ) (w : Wrapper)
    → IsOwned s
    → get_elem? s.objects i ≡ some w
    → w.collected ≡ false
    → ((free_object i w s).0 ≡ (if w.ptr == 0 then of_null else of_block))
      × IsOwned (free_object i w s).1
unfolding free_object
free_object-IsOwned s i w o e c =
    let v = (destroy_into_raw w).1 in
    let owners = AreOwners-set s.objects i v o.owners (λ _. refl) in
    elim (owner-cases s i w o e c) [
      | inl (z, h) ↦
          let none_left = holders-none s i w v o e h refl in
          (rw (z) refl, record { counted = λ p. rw (z) (none_left p); owners = owners })
      | inr (n, h) ↦
          let (r, counted) = account-held s i w v w.ptr o e h n refl in
          (r ∙ ground arith, record { counted = counted; owners = owners })
    ]

collect-IsOwned :
    (s : Blocks) (i : ℕ) (w : Wrapper)
    → IsOwned s
    → get_elem? s.objects i ≡ some w
    → w.collected ≡ false
    → ((collect i w s).0 ≡ (if w.ptr == 0 then none else some of_block)) × IsOwned (collect i w s).1
unfolding collect
collect-IsOwned s i w o e c =
    let v : Wrapper = record w { held = none; collected = true } in
    let owners = AreOwners-set s.objects i v o.owners (λ x. cc) in
    elim (owner-cases s i w o e c) [
      | inl (z, h) ↦
          let none_left = holders-none s i w v o e h refl in
          let same = ap (λ x. finalize x s.live) h in
          (
            ap (λ r. r.0) same ∙ rw (z) refl,
            record { counted = λ p. ap (λ r. r.1 p) same ∙ none_left p; owners = owners },
          )
      | inr (n, h) ↦
          let (r, counted) = account-held s i w v w.ptr o e h n refl in
          let same = ap (λ x. finalize x s.live) h in
          (
            ap (λ r. r.0) same ∙ ap some r ∙ ground arith,
            record { counted = λ p. ap (λ r. r.1 p) same ∙ counted p; owners = owners },
          )
    ]

wrap-IsOwned : (s : Blocks) (ptr : ℕ) → ptr ≢ 0 → IsOwned s → IsOwned (wrap ptr s)
wrap-IsOwned s ptr n o = record {
  counted = λ p. ground (
    arith,
    o.counted p,
    holders-append s.objects (record { ptr = ptr; held = some ptr; collected = false }) p,
  );
  owners =
      AreOwners-append s.objects (record { ptr = ptr; held = some ptr; collected = false }) o.owners
        (λ c. ground arith);
}

Reach-IsOwned : {s : Blocks} → Reach s → IsOwned s
Reach-IsOwned here = record { counted = λ p. refl; owners = tt }
Reach-IsOwned (next r (wraps s ptr n l)) = wrap-IsOwned s ptr n (Reach-IsOwned r)
Reach-IsOwned (next r (frees s i w e c)) = (free_object-IsOwned s i w (Reach-IsOwned r) e c).1
Reach-IsOwned (next r (collects s i w e c)) = (collect-IsOwned s i w (Reach-IsOwned r) e c).1

get_elem?-free_object :
    (s : Blocks) (i : ℕ) (w : Wrapper)
    → get_elem? s.objects i ≡ some w
    → get_elem? (free_object i w s).1.objects i ≡ some (destroy_into_raw w).1
unfolding free_object
get_elem?-free_object s i w e =
    get_elem?-set_self s.objects i (destroy_into_raw w).1 (get_elem?-lt s.objects i w e)

-- After any course of creations, calls of `free` and collections: a block is out exactly if the
-- registry holds it for one of the objects, so that none is lost; a call of `free` on an object
-- gives its block back the first time, and passes the null pointer every later time; and a
-- collection gives back no block that was given back before.
pub Reach-free_object :
    (s : Blocks) (i : ℕ) (w : Wrapper)
    → Reach s
    → get_elem? s.objects i ≡ some w
    → w.collected ≡ false
    → ((p : ℕ) → s.live p ≡ holders s.objects p)
      × ((free_object i w s).0 ≡ (if w.ptr == 0 then of_null else of_block))
      × (get_elem? (free_object i w s).1.objects i ≡ some (destroy_into_raw w).1)
      × ((collect i w s).0 ≡ (if w.ptr == 0 then none else some of_block))
Reach-free_object s i w r e c =
    let o = Reach-IsOwned r in
    (
      o.counted,
      (free_object-IsOwned s i w o e c).0,
      get_elem?-free_object s i w e,
      (collect-IsOwned s i w o e c).0,
    )
