-- ===== src/Policy/Evaluator/Balance/Rules.antt =====
-- How actions on the machine of mom/Policy/Parser.py move the number of scopes: one rule for each
-- way to build an action, and one lemma for each operation of the machine.
use mom.Prelude.{
  ℕ, ◌+◌, String, ◌≡◌, ◌∙◌, refl, Option-cases, inl, inr, Bool, true, false, Option, none, some,
  List, [], ◌∷◌, arith, Result, ok, err, pure, raise, lift, or_raise, proceed, ◌>>=◌, length,
  if◌then◌else◌,
}
use mom.Prelude.{get_elem?, last, set, ◌==◌}
use mom.Python.Value.{
  Floats, Error, Fault, Value, abs, debug, external, bound, index_error, unexpected_token,
}
use mom.Python.Arith
use mom.Entity.{Entity}
use mom.Entity.Methods.{Method, method?, call}
use mom.Policy.Code.{Code, Token, Kind, NumberType, number, string, symbol, operator}
use mom.Policy.Functions.{eval_token, eval_number}
use mom.Policy.Stack
use mom.Policy.Stack.{Scopes}
use mom.Policy.Machine.{
  Machine, M, policy_at, get_defined, get, found, assigned, allocated, set_variable, alloc_variable,
  enter_scope, leave_scope, define, call_value, on_entity,
}

-- From a machine with `i + n` scopes, `m` raises or ends with `j + n` scopes.
abbrev pub Lands : {R A : Type 0} → ℕ → Result Error A → Machine R → Type 0
Lands k (ok a) m = length m.stack ≡ k
Lands k (err e) m = Unit

pub record Moves {R A : Type 0} (i j : ℕ) (act : M R A) : Type 0 where
  pub at : (n : ℕ) (m : Machine R) → length m.stack ≡ i + n → Lands (j + n) (act m).0 (act m).1

module _ {R A : Type 0} where
  pub Moves-pure : (i : ℕ) (a : A) → Moves {R = R} i i (pure a)
  unfolding ◌>>=◌
  Moves-pure i a = record { at = λ n m h. h }

  pub Moves-raise : (i j : ℕ) (e : Error) → Moves {R = R} {A = A} i j (raise e)
  unfolding ◌>>=◌
  Moves-raise i j e = record { at = λ n m h. tt }

  pub Moves-lift : (i : ℕ) (r : Result Error A) → Moves {R = R} i i (lift r)
  unfolding ◌>>=◌
  Moves-lift i (ok a) = record { at = λ n m h. h }
  Moves-lift i (err e) = record { at = λ n m h. tt }

  pub Moves-or_raise : (i : ℕ) (r : Option A) (e : Error) → Moves {R = R} i i (or_raise r e)
  unfolding ◌>>=◌
  Moves-or_raise i none e = record { at = λ n m h. tt }
  Moves-or_raise i (some a) e = record { at = λ n m h. h }

  pub Moves-policy_at :
      (i j : ℕ) (f : Fault) (line : Option ℕ) → Moves {R = R} {A = A} i j (policy_at f line)
  unfolding policy_at ◌>>=◌
  Moves-policy_at i j f none = record { at = λ n m h. tt }
  Moves-policy_at i j f (some l) = record { at = λ n m h. tt }

  pub Moves-if :
      (i j : ℕ) (b : Bool) (x y : M R A)
      → Moves i j x
      → Moves i j y
      → Moves i j (if b then x else y)
  Moves-if i j true x y hx hy = hx
  Moves-if i j false x y hx hy = hy

module _ {R A B : Type 0} where
  proceeds :
      (j k : ℕ) (f : A → M R B) (kf : (a : A) → Moves j k (f a)) (n : ℕ) (r : Result Error A)
      (m : Machine R)
      → Lands (j + n) r m
      → Lands (k + n) (proceed r f m).0 (proceed r f m).1
  proceeds j k f kf n (ok a) m h = (kf a).at n m h
  proceeds j k f kf n (err e) m h = tt

  pub Moves-bind :
      (i j k : ℕ) (act : M R A) (f : A → M R B)
      → Moves i j act
      → ((a : A) → Moves j k (f a))
      → Moves i k (act >>= f)
  unfolding ◌>>=◌
  Moves-bind i j k act f ka kf = record {
    at = λ n m h. proceeds j k f kf n (act m).0 (act m).1 (ka.at n m h);
  }

length-set :
    {V : Type 0} (k : String) (v : V) (stack stack' : Scopes V)
    → Stack.set k v stack ≡ some stack'
    → length stack' ≡ length stack
unfolding Stack.set
length-set k v [] stack' h = cc
length-set k v (scope ∷ stack) stack' h = elim (Option-cases (Stack.set k v stack)) [
  | inl e ↦ ground arith
  | inr (t, e) ↦ ground (arith, length-set k v stack t e)
]

length-alloc :
    {V : Type 0} (k : String) (v w : V) (stack stack' : Scopes V)
    → Stack.alloc k v stack ≡ some (w, stack')
    → length stack' ≡ length stack
unfolding Stack.alloc
length-alloc k v w [] stack' h = cc
length-alloc k v w (scope ∷ stack) stack' h = ground arith

length-leave_scope :
    {V : Type 0} (n : ℕ) (stack : Scopes V)
    → length stack ≡ 1 + n
    → length (Stack.leave_scope stack) ≡ n
unfolding Stack.leave_scope
length-leave_scope n [] h = absurd (omega arith)
length-leave_scope n (scope ∷ stack) h = omega arith

module _ {R : Type 0} where
  pub Lands-found :
      (k : ℕ) (name : String) (line : Option ℕ) (o : Option (Value R)) (m : Machine R)
      → length m.stack ≡ k
      → Lands k (found name line o m).0 (found name line o m).1
  unfolding policy_at ◌>>=◌
  Lands-found k name none none m h = tt
  Lands-found k name (some l) none m h = tt
  Lands-found k name line (some v) m h = h

  pub Lands-assigned :
      (k : ℕ) (name : String) (v : Value R) (o : Option (Scopes (Value R))) (m : Machine R)
      → ((stack : Scopes (Value R)) → o ≡ some stack → length stack ≡ k)
      → Lands k (assigned name v o m).0 (assigned name v o m).1
  Lands-assigned k name v none m h = tt
  Lands-assigned k name v (some stack) m h = h stack refl

  pub Lands-allocated :
      (k : ℕ) (o : Option (Value R × Scopes (Value R))) (m : Machine R)
      → ((v : Value R) (stack : Scopes (Value R)) → o ≡ some (v, stack) → length stack ≡ k)
      → Lands k (allocated o m).0 (allocated o m).1
  Lands-allocated k none m h = tt
  Lands-allocated k (some (v, stack)) m h = h v stack refl

  pub Moves-get_defined : (i : ℕ) (name : String) → Moves {R = R} i i (get_defined name)
  unfolding get_defined
  Moves-get_defined i name = record { at = λ n m h. h }

  pub Moves-get : (i : ℕ) (name : String) (line : Option ℕ) → Moves {R = R} i i (get name line)
  unfolding get
  Moves-get i name line = record { at = λ n m h. Lands-found (i + n) name line _ m h }

  pub Moves-set_variable : (i : ℕ) (name : String) (v : Value R) → Moves i i (set_variable name v)
  unfolding set_variable
  Moves-set_variable i name v = record {
    at = λ n m h. Lands-assigned (i + n) name v _ m (λ t e. length-set name v m.stack t e ∙ h);
  }

  pub Moves-alloc_variable :
      (i : ℕ) (name : String) (v : Value R) → Moves i i (alloc_variable name v)
  unfolding alloc_variable
  Moves-alloc_variable i name v = record {
    at = λ n m h. Lands-allocated (i + n) _ m (λ w t e. length-alloc name v w m.stack t e ∙ h);
  }

  pub Moves-enter_scope : Moves {R = R} 0 1 enter_scope
  unfolding enter_scope
  Moves-enter_scope = record { at = λ n m h. omega arith }

  pub Moves-leave_scope : Moves {R = R} 1 0 leave_scope
  unfolding leave_scope
  Moves-leave_scope = record { at = λ n m h. omega (arith, length-leave_scope n m.stack h) }

  pub Moves-define :
      (i : ℕ) (f : String) (params code : Code) → Moves {R = R} i i (define f params code)
  unfolding define
  Moves-define i f params code = record { at = λ n m h. h }

module _ {R : Type 0} ⦃F : Floats R⦄ where
  pub Lands-on_entity :
      (k i : ℕ) (e : Option (Entity R)) (f : Option Method) (args : List (Value R)) (m : Machine R)
      → length m.stack ≡ k
      → Lands k (on_entity e i f args m).0 (on_entity e i f args m).1
  Lands-on_entity k i none f args m h = tt
  Lands-on_entity k i (some e) none args m h = tt
  Lands-on_entity k i (some e) (some f) args m h = kept (call f args e).0
    where
      kept :
          (r : Result Error (Value R))
          → Lands k r (record m { entities = set m.entities i (call f args e).1 })
      kept (ok v) = h
      kept (err x) = tt

  pub Lands-result :
      {A : Type 0} (k : ℕ) (r : Result Error A) (m : Machine R) → length m.stack ≡ k → Lands k r m
  Lands-result k (ok a) m h = h
  Lands-result k (err e) m h = tt

  pub Moves-call_value :
      (i : ℕ) (func : Value R) (args : List (Value R)) → Moves {R = R} i i (call_value func args)
  unfolding call_value ◌>>=◌
  Moves-call_value i (bound e name) args = record {
    at = λ n m h. Lands-on_entity (i + n) e (get_elem? m.entities e) (method? name) args m h;
  }
  Moves-call_value i (external debug) args = Moves-or_raise i (last args) index_error
  Moves-call_value i (external abs) (x ∷ []) = Moves-lift i (Arith.abs x)
  Moves-call_value i _ args = record { at = λ n m h. tt }

  pub Moves-eval_token : (i : ℕ) (kind : Kind) (t : Token) → Moves {R = R} i i (eval_token kind t)
  unfolding eval_token eval_number
  Moves-eval_token i (number NumberType.float) t = record {
    at = λ n m h. Lands-result (i + n) _ m h;
  }
  Moves-eval_token i (number type) t = record { at = λ n m h. Lands-result (i + n) _ m h }
  Moves-eval_token i string t = Moves-pure i _
  Moves-eval_token i symbol t =
      Moves-if i i (t.value == "nil") _ _ (Moves-pure i _) (Moves-get i t.value t.line)
  Moves-eval_token i operator t = Moves-policy_at i i unexpected_token t.line

-- the rule for the parts of a block that enter and leave no scope
pub Moves-seq :
    {R A B : Type 0} (i : ℕ) (act : M R A) (f : A → M R B)
    → Moves i i act
    → ((a : A) → Moves i i (f a))
    → Moves i i (act >>= f)
Moves-seq i = Moves-bind i i i

pub ruleset moves = (
  Moves-pure, Moves-raise, Moves-lift, Moves-or_raise, Moves-policy_at, Moves-if, Moves-seq,
  Moves-get_defined, Moves-get, Moves-set_variable, Moves-alloc_variable, Moves-define,
  Moves-call_value, Moves-eval_token,
)

pub Lands-level :
    {R A : Type 0} (i n : ℕ) (r : Result Error A) (m : Machine R)
    → Lands (0 + (i + n)) r m
    → Lands (i + n) r m
Lands-level i n (ok a) m h = omega arith
Lands-level i n (err e) m h = tt
