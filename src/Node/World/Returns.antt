-- ===== src/Node/World/Returns.antt =====
-- Runs that end: from any world with just the locks `h`, the action returns, with these locks.
use swarm_mesh.Prelude.{Bool, true, false, ◌≡◌, refl, ap, ◌∙◌, if◌then◌else◌}
use swarm_mesh.Node.World.{
  World, Held, done, M, pure, gets, modify, Lock, is_held, acquire, with_lock, ◌>>=◌,
}
use swarm_mesh.Node.World.Runs.{with_lock-done, bind-done}

module _ {Hs Ts A : Type 0} (h : Held) where
  abbrev pub EndsWith : M Hs Ts A → World Hs Ts → Type 0
  EndsWith m w = (a : A) × (v : World Hs Ts) × (m w ≡ done a v) × (v.held ≡ h)

  pub record Returns (m : M Hs Ts A) : Type 0 where
    pub at : (w : World Hs Ts) → w.held ≡ h → EndsWith m w

module _ {Hs Ts A : Type 0} (h : Held) where
  pub Returns-pure : (a : A) → Returns {Hs = Hs} {Ts = Ts} h (pure a)
  unfolding pure
  Returns-pure a = record { at = λ w q. (a, w, refl, q) }

  pub Returns-gets : (f : World Hs Ts → A) → Returns h (gets f)
  unfolding gets
  Returns-gets f = record { at = λ w q. (f w, w, refl, q) }

  pub Returns-if :
      (b : Bool) (m n : M Hs Ts A) → Returns h m → Returns h n → Returns h (if b then m else n)
  Returns-if true m n r s = r
  Returns-if false m n r s = s

  pub EndsWith-lock :
      (l : Lock) (m : M Hs Ts A) (w : World Hs Ts)
      → is_held l h ≡ false
      → w.held ≡ h
      → EndsWith (acquire l h) m (record w { held = acquire l w.held })
      → EndsWith h (with_lock l m) w
  EndsWith-lock l m w free q (a, v, e, k) =
      (a, record v { held = w.held }, with_lock-done l m w v a (ap (is_held l) q ∙ free) e, q)

  pub Returns-lock :
      (l : Lock) (m : M Hs Ts A)
      → is_held l h ≡ false
      → Returns (acquire l h) m
      → Returns h (with_lock l m)
  Returns-lock l m free r = record {
    at = λ w q.
        EndsWith-lock l m w free q (r.at (record w { held = acquire l w.held }) (ap (acquire l) q));
  }

module _ {Hs Ts : Type 0} (h : Held) where
  pub Returns-modify :
      (f : World Hs Ts → World Hs Ts)
      → ((w : World Hs Ts) → (f w).held ≡ w.held)
      → Returns h (modify f)
  unfolding modify
  Returns-modify f same = record { at = λ w q. (tt, f w, refl, same w ∙ q) }

module _ {Hs Ts A B : Type 0} (h : Held) where
  pub EndsWith-bind :
      (m : M Hs Ts A) (f : A → M Hs Ts B) (w : World Hs Ts)
      → EndsWith h m w
      → ((a : A) → Returns h (f a))
      → EndsWith h (m >>= f) w
  EndsWith-bind m f w (a, v, e, k) s =
      let (b, u, g, j) = (s a).at v k in (b, u, bind-done m f w v a e ∙ g, j)

  pub Returns-bind :
      (m : M Hs Ts A) (f : A → M Hs Ts B)
      → Returns h m
      → ((a : A) → Returns h (f a))
      → Returns h (m >>= f)
  Returns-bind m f r s = record { at = λ w q. EndsWith-bind m f w (r.at w q) s }
