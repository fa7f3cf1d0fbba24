-- ===== src/Machine.antt =====
-- src/lib.rs: the state of `Interpreter`, the environment of the current call and the shared cells,
-- and the commands over them. A Rust `Err` leaves the state as the failing code left it.
use ast_interpreter.Base.{
  ℕ, Bool, List, [], ◌∷◌, ◌++◌, ◌+◌, ◌-◌, Option, none, some, length, get_elem?, set, assoc_get,
  assoc_insert,
}
use ast_interpreter.Error.{InterpretError, Result, ok, err, panic}
use ast_interpreter.Value.Data.{Value, Address}

pub data GlobalState (F : Type 0) : Type 0 where
  in_progress : GlobalState F
  computed : Value F → GlobalState F

abbrev pub Frame : Type 0 → Type 0
Frame F = List (ℕ × Value F)

pub record Machine (F : Type 0) : Type 0 where
  pub heap : List (Value F)
  pub globals : List (ℕ × GlobalState F)
  pub frame : Frame F
  pub unconstrained : Bool
  pub call_depth : ℕ

pub data Flow (F : Type 0) : Type 0 where
  normal : Value F → Flow F
  break continue : Flow F

-- `out_of_fuel` is the model's own: the run was cut short.
pub data Outcome (F A : Type 0) : Type 0 where
  returned : A → Machine F → Outcome F A
  failed : InterpretError → Machine F → Outcome F A
  panicked : Outcome F A
  out_of_fuel : Outcome F A

abbrev pub M : Type 0 → Type 0 → Type 0
M F A = Machine F → Outcome F A

module _ {F A B : Type 0} where
  abbrev pub and_then : Outcome F A → (A → M F B) → Outcome F B
  and_then (returned a s) k = k a s
  and_then (failed e s) k = failed e s
  and_then panicked k = panicked
  and_then out_of_fuel k = out_of_fuel

  infixl 5 ◌>>=◌ ◌>>◌
  abbrev pub ◌>>=◌ : M F A → (A → M F B) → M F B
  m >>= k = λ s. and_then (m s) k

  abbrev pub ◌>>◌ : M F A → M F B → M F B
  m >> k = λ s. and_then (m s) (λ _. k)

module _ {F A : Type 0} where
  abbrev pub pure : A → M F A
  pure a s = returned a s

  abbrev pub fail : InterpretError → M F A
  fail e s = failed e s

  abbrev pub panics : M F A
  panics s = panicked

  abbrev pub no_fuel : M F A
  no_fuel s = out_of_fuel

  abbrev pub lift : Result A → M F A
  lift (ok a) = pure a
  lift (err e) = fail e
  lift panic = panics

  abbrev pub ok_or_fail : Option A → InterpretError → M F A
  ok_or_fail none e = fail e
  ok_or_fail (some a) e = pure a

module _ {F : Type 0} where
  -- `Rc::new(RefCell::new(v))`.
  unfoldable pub alloc : Value F → M F Address
  alloc v s = returned (length s.heap) (record s { heap = s.heap ++ v ∷ [] })

  -- `cell.borrow().clone()`. No `Rc` dangles, so an address outside the heap has no counterpart.
  unfoldable pub read : Address → M F (Value F)
  read a s = elim (get_elem? s.heap a) [ none ↦ panicked | some v ↦ returned v s ]

  -- `*cell.borrow_mut() = v`.
  unfoldable pub write : Address → Value F → M F (Unit {0})
  write a v s = returned tt (record s { heap = set s.heap a v })

  unfoldable pub env_get : ℕ → InterpretError → M F (Value F)
  env_get id e s = ok_or_fail (assoc_get id s.frame) e s

  unfoldable pub env_insert : ℕ → Value F → M F (Unit {0})
  env_insert id v s = returned tt (record s { frame = assoc_insert id v s.frame })

  unfoldable pub get_global : ℕ → M F (Option (GlobalState F))
  get_global id s = returned (assoc_get id s.globals) s

  unfoldable pub set_globals :
      (List (ℕ × GlobalState F) → List (ℕ × GlobalState F)) → M F (Unit {0})
  set_globals change s = returned tt (record s { globals = change s.globals })

  unfoldable pub get_unconstrained : M F Bool
  get_unconstrained s = returned s.unconstrained s

  unfoldable pub get_call_depth : M F ℕ
  get_call_depth s = returned s.call_depth s

module _ {F A : Type 0} where
  -- The state after a command, whether it returns or fails, changed by `f`.
  abbrev pub map_state : (Machine F → Machine F) → Outcome F A → Outcome F A
  map_state f (returned a s) = returned a (f s)
  map_state f (failed e s) = failed e (f s)
  map_state f panicked = panicked
  map_state f out_of_fuel = out_of_fuel

  -- A command with an environment of its own, which it drops.
  unfoldable pub with_frame : Frame F → M F A → M F A
  with_frame frame m s =
      map_state (λ t. record t { frame = s.frame }) (m (record s { frame = frame }))

  -- The body of a call: the callee's mark and one level of depth for its duration.
  unfoldable pub with_call : Bool → M F A → M F A
  with_call unconstrained m s =
      map_state (λ t. record t { unconstrained = s.unconstrained; call_depth = t.call_depth - 1 })
        (m (record s { unconstrained = unconstrained; call_depth = s.call_depth + 1 }))

  -- Clean up after an error, and pass it on.
  abbrev pub clean_up : (Machine F → Machine F) → Outcome F A → Outcome F A
  clean_up f (returned a s) = returned a s
  clean_up f (failed e s) = failed e (f s)
  clean_up f panicked = panicked
  clean_up f out_of_fuel = out_of_fuel

  unfoldable pub on_failure : (Machine F → Machine F) → M F A → M F A
  on_failure f m s = clean_up f (m s)

  -- `.ok()`: an error is dropped, its effects on the state are not.
  abbrev pub attempted : Outcome F A → Outcome F (Option A)
  attempted (returned a s) = returned (some a) s
  attempted (failed e s) = returned none s
  attempted panicked = panicked
  attempted out_of_fuel = out_of_fuel

  unfoldable pub attempt : M F A → M F (Option A)
  attempt m s = attempted (m s)
