-- ===== src/Singleton.antt =====
-- `leo_singleton` (src/leo_singleton.h): the one object of a class and the pointer to it. `none` is a
-- failed assertion, an object deleted twice, or one used after it was deleted.
mod Tests
use leo_net.Base.{
  ℕ, zero, suc, ◌≡◌, ◌⊎◌, ◌↔◌, ◌∙◌, refl, sym, ap, inl, inr, Option, none, some, List, [], ◌∷◌,
  ◌++◌, ◌>>=◌, arith,
}
use leo_net.Base.Lists.{replicate}

-- `__instance`. `release_singleton` does not reset it.
pub data Pointer (A : Type 0) : Type 0 where
  null : Pointer A
  live : A → Pointer A
  dangling : Pointer A

module _ {A : Type 0} where
  -- The first argument is what `new t` gives.
  unfoldable pub create_singleton : Option A → Pointer A → Option (Pointer A)
  create_singleton made null = do t ← made; some (live t)
  create_singleton made (live t) = none
  create_singleton made dangling = none

  unfoldable pub release_singleton : Pointer A → Option (Pointer A)
  release_singleton null = none
  release_singleton (live t) = some dangling
  release_singleton dangling = none

  -- `instance`, which only tests that the pointer is not null.
  unfoldable pub get_instance : Pointer A → Option (Pointer A)
  get_instance null = none
  get_instance (live t) = some (live t)
  get_instance dangling = some dangling

  -- The object behind a pointer, where a caller uses it.
  unfoldable pub object : Pointer A → Option A
  object null = none
  object (live t) = some t
  object dangling = none

pub data Call : Type 0 where
  create : Call
  get_it : Call
  release : Call

-- A life: created once, released once, in this order, and cut off anywhere; the pointer is asked for
-- at any time after it was created, also after the release.
pub IsLife : List Call → Type 0
IsLife cs =
    (cs ≡ [])
    ⊎ ((n : ℕ) × ((cs ≡ create ∷ replicate n get_it)
          ⊎ ((m : ℕ) × (cs ≡ create ∷ (replicate n get_it ++ (release ∷ replicate m get_it))))))

module _ {A : Type 0} (t : A) where
  -- A call, `new` giving `t`.
  unfoldable pub call : Call → Pointer A → Option (Pointer A)
  call create p = create_singleton (some t) p
  call get_it p = do got ← get_instance p; some p
  call release p = release_singleton p

  unfoldable pub calls : List Call → Pointer A → Option (Pointer A)
  calls [] p = some p
  calls (c ∷ cs) p = do p' ← call c p; calls cs p'

  calls_dangling :
      (cs : List Call) (p : Pointer A)
      → calls cs dangling ≡ some p
      → (m : ℕ) × (cs ≡ replicate m get_it)
  unfolding calls call create_singleton release_singleton get_instance
  calls_dangling [] p e = (0, refl)
  calls_dangling (create ∷ cs) p e = absurd (ground (arith, e))
  calls_dangling (get_it ∷ cs) p e =
      let (m, gets) = calls_dangling cs p e in (suc m, ap (λ l. get_it ∷ l) gets)
  calls_dangling (release ∷ cs) p e = absurd (ground (arith, e))

  calls_live :
      (cs : List Call) (u : A) (p : Pointer A)
      → calls cs (live u) ≡ some p
      → (n : ℕ) × ((cs ≡ replicate n get_it)
          ⊎ ((m : ℕ) × (cs ≡ replicate n get_it ++ (release ∷ replicate m get_it))))
  unfolding calls call create_singleton release_singleton get_instance
  calls_live [] u p e = (0, inl refl)
  calls_live (create ∷ cs) u p e = absurd (ground (arith, e))
  calls_live (release ∷ cs) u p e =
      let (m, gets) = calls_dangling cs p e in (0, inr (m, ap (λ l. release ∷ l) gets))
  calls_live (get_it ∷ cs) u p e =
      let (n, so) = calls_live cs u p e in
      elim so [
        | inl gets ↦ (suc n, inl (ap (λ l. get_it ∷ l) gets))
        | inr (m, gets) ↦ (suc n, inr (m, ap (λ l. get_it ∷ l) gets))
      ]

  live_got : (n : ℕ) (u : A) → calls (replicate n get_it) (live u) ≡ some (live u)
  unfolding calls call get_instance
  live_got zero u = refl
  live_got (suc n) u = live_got n u

  dangling_got : (m : ℕ) → calls (replicate m get_it) dangling ≡ some dangling
  unfolding calls call get_instance
  dangling_got zero = refl
  dangling_got (suc m) = dangling_got m

  live_released :
      (n m : ℕ) (u : A)
      → calls (replicate n get_it ++ (release ∷ replicate m get_it)) (live u) ≡ some dangling
  unfolding calls call get_instance release_singleton
  live_released zero m u = dangling_got m
  live_released (suc n) m u = live_released n m u

  -- A sequence of calls of a class's singleton, none made before and `new` giving an object, goes
  -- through exactly when it is a `create_singleton`, then any calls of `instance`, then at most one
  -- `release_singleton` with any further calls of `instance` after it, when the object is deleted.
  pub calls_iff : (cs : List Call) → ((p : Pointer A) × (calls cs null ≡ some p)) ↔ IsLife cs
  unfolding IsLife calls call create_singleton release_singleton get_instance
  calls_iff cs = (lives cs, goes cs)
    where
      lives : (cs : List Call) → (p : Pointer A) × (calls cs null ≡ some p) → IsLife cs
      lives [] (p, e) = inl refl
      lives (create ∷ cs) (p, e) =
          let (n, so) = calls_live cs t p e in
          elim so [
            | inl gets ↦ inr (n, inl (ap (λ l. create ∷ l) gets))
            | inr (m, gets) ↦ inr (n, inr (m, ap (λ l. create ∷ l) gets))
          ]
      lives (get_it ∷ cs) (p, e) = absurd (ground (arith, e))
      lives (release ∷ cs) (p, e) = absurd (ground (arith, e))

      goes : (cs : List Call) → IsLife cs → (p : Pointer A) × (calls cs null ≡ some p)
      goes cs (inl e) = (null, ap (λ l. calls l null) e)
      goes cs (inr (n, inl e)) = (live t, ap (λ l. calls l null) e ∙ live_got n t)
      goes cs (inr (n, inr (m, e))) = (dangling, ap (λ l. calls l null) e ∙ live_released n m t)
