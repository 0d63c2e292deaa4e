-- ===== src/Node/Order/Climbs.antt =====
-- Runs that take locks in the order. A run where other tasks hold some locks is compared with the
-- run from the same world where they hold none: it ends in the same way, or it is blocked at one of
-- theirs. `own` has the locks that the run begins with, and `R` holds of what it returns.
use swarm_mesh.Prelude.{Bool, true, false, ◌≡◌, refl, sym, ap, ◌∙◌, subst, if◌then◌else◌, arith}
use swarm_mesh.Node.World.{
  Lock, peer_lock, session_lock, ping_lock, link_state_lock, lsa_sequence_lock, Held, is_held,
  acquire, World, Outcome, done, stuck, panicked, M, pure, gets, modify, panic, with_lock, release,
  continue, ◌>>=◌,
}
use swarm_mesh.Node.Order.{join, is_after, IsOrdered}

module _ {Hs Ts A : Type 0} (R : A → Type 0) where
  -- How the run ends if others hold `theirs`, and how it ends if they hold none.
  abbrev pub Stops : Held → Held → Outcome Hs Ts A → Outcome Hs Ts A → Type 0
  Stops own theirs (done a v) (done b u) =
      R a × (v.held ≡ join own theirs) × (b ≡ a) × (u ≡ record v { held = own })
  Stops own theirs (panicked v) (panicked u) = Unit {0}
  Stops own theirs (stuck v) (stuck u) = Unit {0}
  Stops own theirs (stuck v) (done b u) = IsOrdered theirs v
  Stops own theirs (stuck v) (panicked u) = IsOrdered theirs v
  Stops own theirs _ _ = ⊥

  pub record Climbs (own : Held) (m : M Hs Ts A) : Type 0 where
    pub at :
        (w : World Hs Ts) (theirs : Held)
        → w.held ≡ join own theirs
        → Stops own theirs (m w) (m (record w { held = own }))

  Stops-blocked :
      (own theirs : Held) (v : World Hs Ts) (o : Outcome Hs Ts A)
      → IsOrdered theirs v
      → Stops own theirs (stuck v) o
  Stops-blocked own theirs v (done b u) i = i
  Stops-blocked own theirs v (stuck u) i = tt
  Stops-blocked own theirs v (panicked u) i = i

join-acquire :
    (k : Lock) (own theirs : Held) → acquire k (join own theirs) ≡ join (acquire k own) theirs
join-acquire peer_lock own theirs = refl
join-acquire session_lock own theirs = refl
join-acquire ping_lock own theirs = refl
join-acquire link_state_lock own theirs = refl
join-acquire lsa_sequence_lock own theirs = refl

is_held-join :
    (k : Lock) (own theirs : Held) → is_held k own ≡ true → is_held k (join own theirs) ≡ true
is_held-join peer_lock own theirs e = ground arith
is_held-join session_lock own theirs e = ground arith
is_held-join ping_lock own theirs e = ground arith
is_held-join link_state_lock own theirs e = ground arith
is_held-join lsa_sequence_lock own theirs e = ground arith

is_held-theirs :
    (k : Lock) (own theirs : Held)
    → is_held k own ≡ false
    → is_held k (join own theirs) ≡ true
    → is_held k theirs ≡ true
is_held-theirs peer_lock own theirs e f = ground arith
is_held-theirs session_lock own theirs e f = ground arith
is_held-theirs ping_lock own theirs e f = ground arith
is_held-theirs link_state_lock own theirs e f = ground arith
is_held-theirs lsa_sequence_lock own theirs e f = ground arith

module _ {Hs Ts A : Type 0} {R : A → Type 0} where
  pub Climbs-pure : (own : Held) (a : A) → R a → Climbs {Hs = Hs} {Ts = Ts} R own (pure a)
  unfolding pure
  Climbs-pure own a r = record { at = λ w theirs q. (r, q, refl, refl) }

  -- What is read does not depend on the locks.
  pub Climbs-gets :
      (own : Held) (f : World Hs Ts → A)
      → ((w : World Hs Ts) (h : Held) → f (record w { held = h }) ≡ f w)
      → ((w : World Hs Ts) → R (f w))
      → Climbs R own (gets f)
  unfolding gets
  Climbs-gets own f blind r = record { at = λ w theirs q. (r w, q, blind w own, refl) }

  pub Climbs-panic : (own : Held) → Climbs {Hs = Hs} {Ts = Ts} R own panic
  unfolding panic
  Climbs-panic own = record { at = λ w theirs q. tt }

  pub Climbs-if :
      (own : Held) (b : Bool) (m n : M Hs Ts A)
      → Climbs R own m
      → Climbs R own n
      → Climbs R own (if b then m else n)
  Climbs-if own true m n r s = r
  Climbs-if own false m n r s = s

module _ {Hs Ts A : Type 0} (R : A → Type 0) where
  Stops-if :
      (own theirs : Held) (b c : Bool) (w u : World Hs Ts) (o p : Outcome Hs Ts A)
      → (b ≡ true → c ≡ false → IsOrdered theirs w)
      → (b ≡ false → (c ≡ false) × Stops R own theirs o p)
      → Stops R own theirs (if b then stuck w else o) (if c then stuck u else p)
  Stops-if own theirs true true w u o p s t = tt
  Stops-if own theirs true false w u o p s t = Stops-blocked R own theirs w p (s refl refl)
  Stops-if own theirs false true w u o p s t = let bad : true ≡ false = (t refl).0 in absurd cc
  Stops-if own theirs false false w u o p s t = (t refl).1

  Stops-release :
      (own theirs inner h : Held) (o p : Outcome Hs Ts A)
      → h ≡ join own theirs
      → Stops R inner theirs o p
      → Stops R own theirs (release h o) (release own p)
  Stops-release own theirs inner h (done a v) (done b u) q (r, held, same, world) =
      (r, q, same, ap {A = World Hs Ts} {B = World Hs Ts} (λ x. record x { held = own }) world)
  Stops-release own theirs inner h (stuck v) (done b u) q s = s
  Stops-release own theirs inner h (stuck v) (stuck u) q s = tt
  Stops-release own theirs inner h (stuck v) (panicked u) q s = s
  Stops-release own theirs inner h (panicked v) (panicked u) q s = tt
  Stops-release own theirs inner h (done a v) (stuck u) q s = absurd s
  Stops-release own theirs inner h (done a v) (panicked u) q s = absurd s
  Stops-release own theirs inner h (panicked v) (done b u) q s = absurd s
  Stops-release own theirs inner h (panicked v) (stuck u) q s = absurd s

module _ {Hs Ts A : Type 0} {R : A → Type 0} where
  -- A lock that comes after those held.
  pub Climbs-lock :
      (own : Held) (k : Lock) (m : M Hs Ts A)
      → is_after k own ≡ true
      → is_held k own ≡ false
      → Climbs R (acquire k own) m
      → Climbs R own (with_lock k m)
  unfolding with_lock
  Climbs-lock own k m after free c = record {
    at = λ w theirs q.
        Stops-if R own theirs (is_held k w.held) (is_held k own) w _ _ _
          (λ e f. (k, own, q, is_held-theirs k own theirs free (sym (ap (is_held k) q) ∙ e), after))
          λ e. (
            free,
            Stops-release R own theirs (acquire k own) w.held _ _ q (
                c.at (record w { held = acquire k w.held }) theirs
                  (ap (acquire k) q ∙ join-acquire k own theirs)),
          );
  }

  -- A lock that the task holds itself: it waits for ever.
  pub Climbs-self :
      (own : Held) (k : Lock) (m : M Hs Ts A) → is_held k own ≡ true → Climbs R own (with_lock k m)
  unfolding with_lock
  Climbs-self own k m held = record {
    at = λ w theirs q.
        let blocked : is_held k w.held ≡ true = ap (is_held k) q ∙ is_held-join k own theirs held in
        Stops-if R own theirs (is_held k w.held) (is_held k own) w _ _ _
          (λ e f. let bad : true ≡ false = sym held ∙ f in absurd cc)
          (λ e. let bad : true ≡ false = sym blocked ∙ e in absurd cc);
  }

module _ {Hs Ts : Type 0} where
  -- A change that leaves the locks alone and does not depend on them.
  pub Climbs-modify :
      (own : Held) (f : World Hs Ts → World Hs Ts)
      → ((w : World Hs Ts) → (f w).held ≡ w.held)
      → ((w : World Hs Ts) (h : Held) → f (record w { held = h }) ≡ record (f w) { held = h })
      → Climbs (λ u. Unit {0}) own (modify f)
  unfolding modify
  Climbs-modify own f same blind = record { at = λ w theirs q. (tt, same w ∙ q, refl, blind w own) }

module _ {Hs Ts A B : Type 0} {R : A → Type 0} {T : B → Type 0} where
  Stops-continue :
      (own theirs : Held) (o p : Outcome Hs Ts A) (f : A → M Hs Ts B)
      → Stops R own theirs o p
      → ((a : A) → R a → Climbs T own (f a))
      → Stops T own theirs (continue o f) (continue p f)
  Stops-continue own theirs (done a v) (done b u) f (r, held, same, world) k =
      subst (λ c. Stops T own theirs (f a v) (f c u)) (sym same)
        (subst (λ x. Stops T own theirs (f a v) (f a x)) (sym world) ((k a r).at v theirs held))
  Stops-continue own theirs (stuck v) (done b u) f s k = Stops-blocked T own theirs v (f b u) s
  Stops-continue own theirs (stuck v) (stuck u) f s k = tt
  Stops-continue own theirs (stuck v) (panicked u) f s k = s
  Stops-continue own theirs (panicked v) (panicked u) f s k = tt
  Stops-continue own theirs (done a v) (stuck u) f s k = absurd s
  Stops-continue own theirs (done a v) (panicked u) f s k = absurd s
  Stops-continue own theirs (panicked v) (done b u) f s k = absurd s
  Stops-continue own theirs (panicked v) (stuck u) f s k = absurd s

  pub Climbs-bind :
      (own : Held) (m : M Hs Ts A) (f : A → M Hs Ts B)
      → Climbs R own m
      → ((a : A) → R a → Climbs T own (f a))
      → Climbs T own (m >>= f)
  unfolding ◌>>=◌
  Climbs-bind own m f c k = record {
    at = λ w theirs q. Stops-continue own theirs (m w) _ f (c.at w theirs q) k;
  }
