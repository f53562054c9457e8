-- ===== src/Worker/Flow/Rules.antt =====
-- Rules for actions: what holds when one returns, that it ends, and that it keeps an invariant.
use voice_mesh.Prelude.{◌≡◌, ◌≢◌, refl, Bool, true, false, if◌then◌else◌}
use voice_mesh.Worker.Flow.{
  Answer, reply, failure, Outcome, returned, raised, out_of_fuel, World, Run, Flow, ◌>>=◌, continue,
  pure, gets, modify, execute, outcome_of,
}

module _ {S Sig Act : Type 0} where
  -- What holds of a run whenever an action returns.
  pub record Ensures {A : Type 0} (Q : Run S Sig Act → Type 0) (m : Flow S Sig Act A) : Type 0 where
    pub at : (r : Run S Sig Act) (a : A) → (m r).0 ≡ returned a → Q (m r).1

  -- An action that does not run out of rounds.
  pub record Ends {A : Type 0} (m : Flow S Sig Act A) : Type 0 where
    pub ends : (r : Run S Sig Act) → (m r).0 ≢ out_of_fuel

  -- An invariant that an action keeps, whether it returns or raises.
  pub record Keeps {A : Type 0} (I : Run S Sig Act → Type 0) (m : Flow S Sig Act A) : Type 0 where
    pub kept : (r : Run S Sig Act) → I r → I (m r).1

module _ {S Sig Act A B : Type 0} where
  continue-Ensures :
      (Q : Run S Sig Act → Type 0) (o : Outcome A) (f : A → Flow S Sig Act B)
      → ((a : A) → Ensures Q (f a))
      → Ensures Q (continue o f)
  continue-Ensures Q (returned a) f h = h a
  continue-Ensures Q (raised e) f h = record { at = λ r a q. cc }
  continue-Ensures Q out_of_fuel f h = record { at = λ r a q. cc }

  pub bind-Ensures :
      (Q : Run S Sig Act → Type 0) (m : Flow S Sig Act A) (f : A → Flow S Sig Act B)
      → ((a : A) → Ensures Q (f a))
      → Ensures Q (m >>= f)
  unfolding ◌>>=◌
  bind-Ensures Q m f h = record { at = λ r a q. (continue-Ensures Q (m r).0 f h).at (m r).1 a q }

  -- A step followed by a rest returns only through both.
  pub continue_post :
      (Q : Run S Sig Act → Type 0) (o : Outcome A) (f : A → Flow S Sig Act B) (r : Run S Sig Act)
      (a : B)
      → ((b : A) → o ≡ returned b → (f b r).0 ≡ returned a → Q (f b r).1)
      → (continue o f r).0 ≡ returned a
      → Q (continue o f r).1
  continue_post Q (returned b) f r a h q = h b refl q
  continue_post Q (raised e) f r a h q = cc
  continue_post Q out_of_fuel f r a h q = cc

  continue-Ends :
      (o : Outcome A) (f : A → Flow S Sig Act B)
      → o ≢ out_of_fuel
      → ((a : A) → Ends (f a))
      → Ends (continue o f)
  continue-Ends (returned a) f n h = h a
  continue-Ends (raised e) f n h = record { ends = λ r e. cc }
  continue-Ends out_of_fuel f n h = absurd (n refl)

  pub bind-Ends :
      (m : Flow S Sig Act A) (f : A → Flow S Sig Act B)
      → Ends m
      → ((a : A) → Ends (f a))
      → Ends (m >>= f)
  unfolding ◌>>=◌
  bind-Ends m f hm hf = record { ends = λ r. (continue-Ends (m r).0 f (hm.ends r) hf).ends (m r).1 }

  continue-Keeps :
      (I : Run S Sig Act → Type 0) (o : Outcome A) (f : A → Flow S Sig Act B)
      → ((a : A) → Keeps I (f a))
      → Keeps I (continue o f)
  continue-Keeps I (returned a) f h = h a
  continue-Keeps I (raised e) f h = record { kept = λ r h. h }
  continue-Keeps I out_of_fuel f h = record { kept = λ r h. h }

  -- An invariant through a step and the rest, which may use what the step returned.
  pub continue_kept :
      (I : Run S Sig Act → Type 0) (o : Outcome A) (f : A → Flow S Sig Act B) (r : Run S Sig Act)
      → I r
      → ((a : A) → o ≡ returned a → I (f a r).1)
      → I (continue o f r).1
  continue_kept I (returned a) f r h k = k a refl
  continue_kept I (raised e) f r h k = h
  continue_kept I out_of_fuel f r h k = h

  pub bind-Keeps :
      (I : Run S Sig Act → Type 0) (m : Flow S Sig Act A) (f : A → Flow S Sig Act B)
      → Keeps I m
      → ((a : A) → Keeps I (f a))
      → Keeps I (m >>= f)
  unfolding ◌>>=◌
  bind-Keeps I m f hm hf = record {
    kept = λ r h. (continue-Keeps I (m r).0 f hf).kept (m r).1 (hm.kept r h);
  }

pub outcome-ne : {Rep : Type 0} (a : Answer Rep) → outcome_of a ≢ out_of_fuel
outcome-ne (reply a) e = cc
outcome-ne (failure m) e = cc

module _ {S Sig Act : Type 0} where
  pub pure-Ends : {A : Type 0} (a : A) → Ends {S = S} {Sig = Sig} {Act = Act} (pure a)
  unfolding pure
  pure-Ends a = record { ends = λ r e. cc }

  pub gets-Ends : {A : Type 0} (f : S → A) → Ends {S = S} {Sig = Sig} {Act = Act} (gets f)
  unfolding gets
  gets-Ends f = record { ends = λ r e. cc }

  pub modify-Ends : (f : S → S) → Ends {S = S} {Sig = Sig} {Act = Act} (modify f)
  unfolding modify
  modify-Ends f = record { ends = λ r e. cc }

  pub pure-Keeps : {A : Type 0} (I : Run S Sig Act → Type 0) (a : A) → Keeps I (pure a)
  unfolding pure
  pure-Keeps I a = record { kept = λ r h. h }

  pub gets-Keeps : {A : Type 0} (I : Run S Sig Act → Type 0) (f : S → A) → Keeps I (gets f)
  unfolding gets
  gets-Keeps I f = record { kept = λ r h. h }

  pub execute-Ends :
      {Rep : Type 0} (w : World Sig Act Rep) (handle : S → Sig → S) (a : Act)
      → Ends (execute w handle a)
  unfolding execute
  execute-Ends w handle a = record { ends = λ r. outcome-ne (w.answer r.tick a) }

  pub if-Ends :
      {A : Type 0} (b : Bool) (m n : Flow S Sig Act A) → Ends m → Ends n → Ends (if b then m else n)
  if-Ends true m n h k = h
  if-Ends false m n h k = k

  pub if-Ensures :
      {A : Type 0} (Q : Run S Sig Act → Type 0) (b : Bool) (m n : Flow S Sig Act A)
      → Ensures Q m
      → Ensures Q n
      → Ensures Q (if b then m else n)
  if-Ensures Q true m n h k = h
  if-Ensures Q false m n h k = k

  pub if-Keeps :
      {A : Type 0} (I : Run S Sig Act → Type 0) (b : Bool) (m n : Flow S Sig Act A)
      → Keeps I m
      → Keeps I n
      → Keeps I (if b then m else n)
  if-Keeps I true m n h k = h
  if-Keeps I false m n h k = k

pub if_post :
    {A S : Type 0} (Q : S → Type 0) (b : Bool) (x y : Outcome A × S) (a : A)
    → (b ≡ true → x.0 ≡ returned a → Q x.1)
    → (b ≡ false → y.0 ≡ returned a → Q y.1)
    → (if b then x else y).0 ≡ returned a
    → Q (if b then x else y).1
if_post Q true x y a h k q = h refl q
if_post Q false x y a h k q = k refl q

pub if_kept_cases :
    {A S : Type 0} (I : S → Type 0) (b : Bool) (x y : Outcome A × S)
    → (b ≡ true → I x.1)
    → (b ≡ false → I y.1)
    → I (if b then x else y).1
if_kept_cases I true x y h k = h refl
if_kept_cases I false x y h k = k refl

pub if_kept :
    {A S : Type 0} (I : S → Type 0) (b : Bool) (x y : Outcome A × S)
    → I x.1
    → I y.1
    → I (if b then x else y).1
if_kept I true x y h k = h
if_kept I false x y h k = k

pub if_ends :
    {A S : Type 0} (b : Bool) (x y : Outcome A × S)
    → (b ≡ true → x.0 ≢ out_of_fuel)
    → (b ≡ false → y.0 ≢ out_of_fuel)
    → (if b then x else y).0 ≢ out_of_fuel
if_ends true x y h k = h refl
if_ends false x y h k = k refl

pub ruleset ends_rules = (pure-Ends, gets-Ends, modify-Ends, execute-Ends, bind-Ends, if-Ends)
