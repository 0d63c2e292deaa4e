-- ===== src/Node/World/Keeps.antt =====
-- Invariants of runs. `P` holds before a run and after one that returns or panics, `S` where a run
-- is stuck, and `R` of the value that is returned. A run that returns or panics gives back its locks.
use swarm_mesh.Prelude.{Bool, true, false, ◌≡◌, refl, sym, ap, ◌∙◌, subst, if◌then◌else◌}
use swarm_mesh.Node.World.{
  World, Outcome, done, stuck, panicked, M, pure, gets, panic, modify, Held, Lock, session_lock,
  is_held, acquire, with_lock, release, continue, ◌>>=◌, ◌>>◌,
}

abbrev pub Any : {A : Type 0} → A → Type 0
Any a = Unit {0}

module _ {Hs Ts : Type 0} (P S : World Hs Ts → Type 0) where
  abbrev pub Ends : {A : Type 0} → (A → Type 0) → Held → Outcome Hs Ts A → Type 0
  Ends R h (done a w) = R a × P w × (w.held ≡ h)
  Ends R h (stuck w) = S w
  Ends R h (panicked w) = P w × (w.held ≡ h)

  pub record Keeps {A : Type 0} (R : A → Type 0) (m : M Hs Ts A) : Type 0 where
    pub at : (w : World Hs Ts) → P w → Ends R w.held (m w)

module _ {Hs Ts : Type 0} where
  -- `P` says nothing of the locks, but for that of the sessions.
  abbrev pub IsLockFree : (World Hs Ts → Type 0) → Type 0
  IsLockFree P =
      (w : World Hs Ts) (h : Held) → h.session ≡ w.held.session → P w → P (record w { held = h })

module _ {Hs Ts : Type 0} {P S : World Hs Ts → Type 0} {A : Type 0} {R : A → Type 0} where
  pub Keeps-pure : (a : A) → R a → Keeps P S R (pure a)
  unfolding pure
  Keeps-pure a r = record { at = λ w p. (r, p, refl) }

  pub Keeps-gets :
      (f : World Hs Ts → A) → ((w : World Hs Ts) → P w → R (f w)) → Keeps P S R (gets f)
  unfolding gets
  Keeps-gets f r = record { at = λ w p. (r w p, p, refl) }

  pub Keeps-panic : Keeps P S R panic
  unfolding panic
  Keeps-panic = record { at = λ w p. (p, refl) }

  pub Keeps-if :
      (b : Bool) (m n : M Hs Ts A)
      → Keeps P S R m
      → Keeps P S R n
      → Keeps P S R (if b then m else n)
  Keeps-if true m n km kn = km
  Keeps-if false m n km kn = kn

module _ {Hs Ts : Type 0} (P S : World Hs Ts → Type 0) {A : Type 0} (R : A → Type 0) where
  Ends-lock :
      (b : Bool) (w : World Hs Ts) (r : Outcome Hs Ts A)
      → (b ≡ true → S w)
      → (b ≡ false → Ends P S R w.held r)
      → Ends P S R w.held (if b then stuck w else r)
  Ends-lock true w r es er = es refl
  Ends-lock false w r es er = er refl

  Ends-release :
      (T : World Hs Ts → Type 0) (h k : Held) (o : Outcome Hs Ts A)
      → ((w : World Hs Ts) → T w → (w.held ≡ k) → P (record w { held = h }))
      → Ends T S R k o
      → Ends P S R h (release h o)
  Ends-release T h k (done a w) f p = (p.0, f w p.1 p.2, refl)
  Ends-release T h k (stuck w) f p = p
  Ends-release T h k (panicked w) f p = (f w p.0 p.1, refl)

module _ {Hs Ts : Type 0} {P S : World Hs Ts → Type 0} {A : Type 0} {R : A → Type 0} where
  -- A lock other than that of the sessions.
  pub Keeps-with_lock :
      (l : Lock) (m : M Hs Ts A)
      → ((h : Held) → (acquire l h).session ≡ h.session)
      → IsLockFree P
      → ((w : World Hs Ts) → P w → S w)
      → Keeps P S R m
      → Keeps P S R (with_lock l m)
  unfolding with_lock
  Keeps-with_lock l m same f s k = record {
    at = λ w p.
        Ends-lock P S R (is_held l w.held) w _ (λ _. s w p)
          λ _.
            Ends-release P S R P w.held (acquire l w.held) _
              (λ v q e. f v w.held (sym (same w.held) ∙ ap (λ h. h.session) (sym e)) q)
              (k.at _ (f w (acquire l w.held) (same w.held) p));
  }

  -- The lock of the sessions. In its body another predicate `T` may hold.
  pub Keeps-with_session_lock :
      (T : World Hs Ts → Type 0) (m : M Hs Ts A)
      → ((w : World Hs Ts) → P w → S w)
      → ((w : World Hs Ts)
          → P w
          → w.held.session ≡ false
          → T (record w { held = acquire session_lock w.held }))
      → ((w : World Hs Ts) (h : Held) → T w → P (record w { held = h }))
      → Keeps T S R m
      → Keeps P S R (with_lock session_lock m)
  unfolding with_lock
  Keeps-with_session_lock T m s enter leave k = record {
    at = λ w p.
        Ends-lock P S R (is_held session_lock w.held) w _ (λ _. s w p)
          λ e.
            Ends-release P S R T w.held (acquire session_lock w.held) _ (λ v q _. leave v w.held q)
              (k.at _ (enter w p e));
  }

module _ {Hs Ts : Type 0} {P S : World Hs Ts → Type 0} where
  pub Keeps-modify :
      (f : World Hs Ts → World Hs Ts)
      → ((w : World Hs Ts) → P w → P (f w) × ((f w).held ≡ w.held))
      → Keeps P S Any (modify f)
  unfolding modify
  Keeps-modify f h = record { at = λ w p. (tt, (h w p).0, (h w p).1) }

module _ {Hs Ts A B : Type 0} {P S : World Hs Ts → Type 0} {R : A → Type 0} {T : B → Type 0} where
  Ends-continue :
      (h : Held) (o : Outcome Hs Ts A) (f : A → M Hs Ts B)
      → Ends P S R h o
      → ((a : A) → R a → Keeps P S T (f a))
      → Ends P S T h (continue o f)
  Ends-continue h (done a w) f p k = subst (λ j. Ends P S T j (f a w)) p.2 ((k a p.0).at w p.1)
  Ends-continue h (stuck w) f p k = p
  Ends-continue h (panicked w) f p k = p

  pub Keeps-bind :
      (m : M Hs Ts A) (f : A → M Hs Ts B)
      → Keeps P S R m
      → ((a : A) → R a → Keeps P S T (f a))
      → Keeps P S T (m >>= f)
  unfolding ◌>>=◌
  Keeps-bind m f km kf = record { at = λ w p. Ends-continue w.held (m w) f (km.at w p) kf }

  pub Keeps-then :
      (m : M Hs Ts A) (k : M Hs Ts B) → Keeps P S R m → Keeps P S T k → Keeps P S T (m >> k)
  Keeps-then m k km kk = Keeps-bind m (λ _. k) km (λ _ _. kk)
