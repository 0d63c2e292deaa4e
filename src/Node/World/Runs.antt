-- ===== src/Node/World/Runs.antt =====
-- What an action does when its parts do not get stuck and do not panic.
use swarm_mesh.Prelude.{true, false, ◌≡◌, refl, sym, ap, subst, ◌∙◌}
use swarm_mesh.Node.World.{
  World, Held, none_held, done, stuck, M, Lock, peer_lock, session_lock, ping_lock, link_state_lock,
  lsa_sequence_lock, is_held, acquire, with_lock, ◌>>=◌,
}

is_held-none : (l : Lock) → is_held l none_held ≡ false
is_held-none peer_lock = refl
is_held-none session_lock = refl
is_held-none ping_lock = refl
is_held-none link_state_lock = refl
is_held-none lsa_sequence_lock = refl

pub is_held-none_held : (l : Lock) (h : Held) → h ≡ none_held → is_held l h ≡ false
is_held-none_held l h e = ap (is_held l) e ∙ is_held-none l

module _ {Hs Ts A : Type 0} where
  pub with_lock-done :
      (l : Lock) (m : M Hs Ts A) (w v : World Hs Ts) (a : A)
      → is_held l w.held ≡ false
      → m (record w { held = acquire l w.held }) ≡ done a v
      → with_lock l m w ≡ done a (record v { held = w.held })
  unfolding with_lock
  with_lock-done l m w v a f e = rw (f, e)

  pub with_lock-held :
      (l : Lock) (m : M Hs Ts A) (w : World Hs Ts)
      → is_held l w.held ≡ true
      → with_lock l m w ≡ stuck w
  unfolding with_lock
  with_lock-held l m w f = rw f

  pub with_lock-stuck :
      (l : Lock) (m : M Hs Ts A) (w v : World Hs Ts)
      → is_held l w.held ≡ false
      → m (record w { held = acquire l w.held }) ≡ stuck v
      → with_lock l m w ≡ stuck v
  unfolding with_lock
  with_lock-stuck l m w v f e = rw (f, e)

module _ {Hs Ts A B : Type 0} where
  pub bind-done :
      (m : M Hs Ts A) (f : A → M Hs Ts B) (w v : World Hs Ts) (a : A)
      → m w ≡ done a v
      → (m >>= f) w ≡ f a v
  unfolding ◌>>=◌
  bind-done m f w v a e = rw e

  pub bind-stuck :
      (m : M Hs Ts A) (f : A → M Hs Ts B) (w v : World Hs Ts)
      → m w ≡ stuck v
      → (m >>= f) w ≡ stuck v
  unfolding ◌>>=◌
  bind-stuck m f w v e = rw e

-- Where no lock is held, it is enough to look at a world that says so in full.
pub if_free :
    {Hs Ts : Type 0} (P : World Hs Ts → Type 0)
    → ((w : World Hs Ts) → P (record w { held = none_held }))
    → (w : World Hs Ts) → w.held ≡ none_held
    → P w
if_free P f w free = subst (λ h. P (record w { held = h })) (sym free) (f w)
