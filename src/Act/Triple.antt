-- ===== src/Act/Triple.antt =====
-- Statements about what an action does on its two ways to end, with the rules to put them together.
use perses_operator.Act.{Act, Outcome, ok, fail, pure, halt, continue, ◌>>=◌}

module _ {W E A : Type 0} where
  abbrev pub Post : (A → W → Type 0) → (W → Type 0) → Outcome E A → W → Type 0
  Post Q F (ok a) w = Q a w
  Post Q F (fail e) w = F w

  -- From `P`, the action `m` ends with `Q` of its value, or early with `F`.
  pub record Triple (P : W → Type 0) (m : Act W E A) (Q : A → W → Type 0) (F : W → Type 0)
      : Type 0 where
    pub at : (w : W) → P w → Post Q F (m w).0 (m w).1

  pub triple-pure : {P F : W → Type 0} (a : A) → Triple P (pure a) (λ _. P) F
  triple-pure a = record { at = λ w h. h }

  pub triple-halt : {P : W → Type 0} (Q : A → W → Type 0) (e : E) → Triple P (halt e) Q P
  triple-halt Q e = record { at = λ w h. h }

module _ {W E A B : Type 0} where
  Post-continue :
      {Q : A → W → Type 0} {R : B → W → Type 0} {F : W → Type 0} (r : Outcome E A) (w : W)
      (f : A → Act W E B)
      → Post Q F r w
      → ((a : A) → Triple (Q a) (f a) R F)
      → Post R F (continue r f w).0 (continue r f w).1
  Post-continue (ok a) w f h k = (k a).at w h
  Post-continue (fail e) w f h k = h

  pub triple-bind :
      {P : W → Type 0} {Q : A → W → Type 0} {R : B → W → Type 0} {F : W → Type 0} {m : Act W E A}
      {f : A → Act W E B}
      → Triple P m Q F
      → ((a : A) → Triple (Q a) (f a) R F)
      → Triple P (m >>= f) R F
  triple-bind {m} {f} t k = record { at = λ w h. Post-continue (m w).0 (m w).1 f (t.at w h) k }

module _ {W E A : Type 0} where
  Post-both :
      (Q Q' : A → W → Type 0) (F F' G : W → Type 0) (r : Outcome E A) (w : W)
      → ((u : W) → F u → F' u → G u)
      → Post Q F r w
      → Post Q' F' r w
      → Post (λ a u. Q a u × Q' a u) G r w
  Post-both Q Q' F F' G (ok a) w f h h' = (h, h')
  Post-both Q Q' F F' G (fail e) w f h h' = f w h h'

  -- Two triples of one action at once; `f` says what is kept of them where it ends early.
  pub triple-both :
      {P P' : W → Type 0} {m : Act W E A} {Q Q' : A → W → Type 0} {F F' : W → Type 0}
      (G : W → Type 0)
      → Triple P m Q F
      → Triple P' m Q' F'
      → ((u : W) → F u → F' u → G u)
      → Triple (λ w. P w × P' w) m (λ a w. Q a w × Q' a w) G
  triple-both {m} {Q} {Q'} {F} {F'} G t t' f = record {
    at = λ w h. Post-both Q Q' F F' G (m w).0 (m w).1 f (t.at w h.0) (t'.at w h.1);
  }
