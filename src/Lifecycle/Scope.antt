-- ===== src/Lifecycle/Scope.antt =====
-- stratae/lifecycle/scope.py: `BaseScope._activate`, `BaseScope._end`, `_release`, and the
-- activation and deactivation of `Scope` and `AsyncScope`; stratae/lifecycle/_slots.py: `SharedVar`.
-- Scopes and execution contexts are numbers. An activation's storage is the four reserved slots; an
-- ended one, which the code empties, is one that is not live. The storages ever made are kept in a
-- heap, the latest first, and the address of one is the number of those before it.
pub mod Heap
pub mod Counting
pub mod Slots
pub mod World
pub mod Reachability
pub mod Dependents
pub mod Rollback
pub mod Blocks
use stratae.Prelude.{
  ℕ, ◌+◌, ◌-◌, Bool, true, false, Option, none, some, List, [], ◌∷◌, ◌==◌, ◌&&◌, ltb, length,
  if◌then◌else◌,
}
use stratae.Python.{Exc}
use stratae.Lifecycle.Stack.Exit.{Contexts}
use stratae.Lifecycle.Stack.Close.{Closed, finished, close, aclose}

-- `contexts`, `dependents`, `token` (the context that the variable was set in, and what it held)
-- and `parent` are slots 0 to 3.
pub record Storage : Type 0 where
  pub live : Bool
  pub contexts : Contexts
  pub dependents : ℕ
  pub set_in : ℕ
  pub held : Option ℕ
  pub parent : Option ℕ

-- A scope's `isolation` and `requires`.
pub record ScopeConfig : Type 0 where
  pub is_shared : Bool
  pub requires : Option ℕ

-- `vars context scope` is what a context scope's variable holds in a context, and `shared scope`
-- what a shared scope's does in all.
pub record State : Type 0 where
  pub heap : List Storage
  pub vars : ℕ → ℕ → Option ℕ
  pub shared : ℕ → Option ℕ

unfoldable pub find : ℕ → List Storage → Option Storage
find a [] = none
find a (x ∷ xs) = let rest = find a xs in if a == length xs then some x else rest

unfoldable pub update : ℕ → (Storage → Storage) → List Storage → List Storage
update a f [] = []
update a f (x ∷ xs) = let rest = update a f xs in if a == length xs then f x ∷ xs else x ∷ rest

abbrev pub is_live? : Option Storage → Bool
is_live? none = false
is_live? (some x) = x.live

-- `bool(slots)`
abbrev pub is_live : ℕ → List Storage → Bool
is_live a heap = is_live? (find a heap)

-- `parent_slots[1] += 1`, and `-= 1`.
abbrev pub count_one : Storage → Storage
count_one x = record x { dependents = x.dependents + 1 }

abbrev pub uncount_one : Storage → Storage
uncount_one x = record x { dependents = x.dependents - 1 }

-- `slots.clear()`
abbrev pub cleared : Storage → Storage
cleared x = record x { live = false; contexts = []; dependents = 0 }

-- `_release`, of a parent if there is one.
unfoldable pub release : Option ℕ → State → State
release none s = s
release (some p) s = record s { heap = update p uncount_one s.heap }

-- What `_activate` comes to.
pub data Activated : Type 0 where
  activated : ℕ → Activated
  required_scope_inactive scope_already_active : Activated

-- What `_end` comes to: the ended activation's resources and parent, or what it raises.
pub data Ended : Type 0 where
  ended : Contexts → Option ℕ → Ended
  already_deactivated wrong_context nothing_to_deactivate dependent_scope_active : Ended

-- `slots[0] = []` and `slots[3] = parent_slots` on a copy of the template.
abbrev pub new_storage : ℕ → Option ℕ → Option ℕ → Storage
new_storage context held parent = record {
  live = true;
  contexts = [];
  dependents = 0;
  set_in = context;
  held = held;
  parent = parent;
}

module _ (configs : ℕ → ScopeConfig) where
  -- `scope._var.get(None)`
  unfoldable pub get_var : ℕ → ℕ → State → Option ℕ
  get_var context scope s =
      if (configs scope).is_shared then s.shared scope else s.vars context scope

  unfoldable pub put_var : ℕ → ℕ → Option ℕ → State → State
  put_var context scope v s =
      if (configs scope).is_shared
      then record s { shared = λ k. (if k == scope then v else s.shared k) }
      else record s { vars = λ c k. (if (c == context) && (k == scope) then v else s.vars c k) }

  abbrev pub set_new : ℕ → ℕ → Option ℕ → Option ℕ → State → Activated × State
  set_new context scope parent held s = (
    activated (length s.heap),
    put_var context scope (some (length s.heap))
        (record s { heap = new_storage context held parent ∷ s.heap }),
  )

  abbrev pub set_unless : ℕ → ℕ → Option ℕ → Option ℕ → Bool → State → Activated × State
  set_unless context scope parent (some a) true s = (scope_already_active, release parent s)
  set_unless context scope parent none true s = set_new context scope parent none s
  set_unless context scope parent held false s = set_new context scope parent held s

  -- The second half of `_activate`: the new storage, and `_var.set`, which raises where a shared
  -- scope is active.
  unfoldable pub set_var : ℕ → ℕ → Option ℕ → State → Activated × State
  set_var context scope parent s =
      set_unless context scope parent (get_var context scope s) (configs scope).is_shared s

  -- The first half: the parent is counted if it is live.
  abbrev pub count_parent :
      (Option ℕ → State → Activated × State) → ℕ → Bool → State → Activated × State
  count_parent continue p false s = (required_scope_inactive, s)
  count_parent continue p true s = continue (some p) (record s { heap = update p count_one s.heap })

  abbrev pub with_parent :
      (Option ℕ → State → Activated × State) → Option ℕ → State → Activated × State
  with_parent continue none s = (required_scope_inactive, s)
  with_parent continue (some p) s = count_parent continue p (is_live p s.heap) s

  abbrev pub with_requires :
      (Option ℕ → State → Activated × State) → ℕ → Option ℕ → State → Activated × State
  with_requires continue context none s = continue none s
  with_requires continue context (some required) s =
      with_parent continue (get_var context required s) s

  -- `_activate`
  unfoldable pub activate : ℕ → ℕ → State → Activated × State
  activate context scope s =
      with_requires (set_var context scope) context (configs scope).requires s

  -- `_raise_not_current`
  abbrev pub not_current : ℕ → State → Ended
  not_current expected s = if is_live expected s.heap then wrong_context else already_deactivated

  abbrev pub reset_to : ℕ → ℕ → ℕ → Storage → Option ℕ → State → Ended × State
  reset_to context scope a x v s = (
    ended x.contexts x.parent,
    put_var context scope v (record s { heap = update a cleared s.heap }),
  )

  -- `var.reset(slots[2])`, which a context variable refuses in another context, and the emptying.
  abbrev pub reset_var : ℕ → ℕ → ℕ → Storage → State → Ended × State
  reset_var context scope a x s =
      if (configs scope).is_shared
      then reset_to context scope a x none s
      else if x.set_in == context
      then reset_to context scope a x x.held s
      else (wrong_context, s)

  abbrev pub end_dependents : ℕ → ℕ → ℕ → Storage → Bool → State → Ended × State
  end_dependents context scope a x true s = (dependent_scope_active, s)
  end_dependents context scope a x false s = reset_var context scope a x s

  abbrev pub end_live : ℕ → ℕ → ℕ → Storage → Bool → State → Ended × State
  end_live context scope a x false s = (nothing_to_deactivate, s)
  end_live context scope a x true s = end_dependents context scope a x (ltb 0 x.dependents) s

  abbrev pub end_found : ℕ → ℕ → ℕ → Option Storage → State → Ended × State
  end_found context scope a none s = (nothing_to_deactivate, s)
  end_found context scope a (some x) s = end_live context scope a x x.live s

  abbrev pub end_held : ℕ → ℕ → Option ℕ → State → Ended × State
  end_held context scope none s = (nothing_to_deactivate, s)
  end_held context scope (some a) s = end_found context scope a (find a s.heap) s

  abbrev pub is_held : ℕ → Option ℕ → Bool
  is_held a none = false
  is_held a (some b) = a == b

  -- `_end(expected)` and the emptying of the storage after it.
  unfoldable pub end_activation : ℕ → ℕ → Option ℕ → State → Ended × State
  end_activation context scope none s = end_held context scope (get_var context scope s) s
  end_activation context scope (some expected) s =
      if is_held expected (get_var context scope s)
      then end_held context scope (get_var context scope s) s
      else (not_current expected s, s)

-- `close(contexts, exc) if contexts else False`, between the end and the release.
unfoldable pub close_contexts : Contexts → Option Exc → Closed
close_contexts [] exc = finished false
close_contexts (c ∷ cs) exc = close (c ∷ cs) exc

unfoldable pub aclose_contexts : Contexts → Option Exc → Closed
aclose_contexts [] exc = finished false
aclose_contexts (c ∷ cs) exc = aclose (c ∷ cs) exc

-- What a deactivation comes to: it is refused, or its resources were closed.
pub data Deactivated : Type 0 where
  refused : Ended → Deactivated
  closed : Closed → Deactivated

abbrev pub on_ended : (Contexts → Closed) → Ended × State → Deactivated × State
on_ended close_all (ended contexts parent, s) = (closed (close_all contexts), release parent s)
on_ended close_all (already_deactivated, s) = (refused already_deactivated, s)
on_ended close_all (wrong_context, s) = (refused wrong_context, s)
on_ended close_all (nothing_to_deactivate, s) = (refused nothing_to_deactivate, s)
on_ended close_all (dependent_scope_active, s) = (refused dependent_scope_active, s)

module _ (configs : ℕ → ScopeConfig) where
  -- `Scope.deactivate`, where nothing else runs while the resources are closed. The parent is
  -- released whether or not the close raises.
  unfoldable pub deactivate : ℕ → ℕ → Option ℕ → Option Exc → State → Deactivated × State
  deactivate context scope expected exc s =
      on_ended (λ contexts. close_contexts contexts exc)
        (end_activation configs context scope expected s)

  -- `AsyncScope.deactivate`
  unfoldable pub deactivate_async : ℕ → ℕ → Option ℕ → Option Exc → State → Deactivated × State
  deactivate_async context scope expected exc s =
      on_ended (λ contexts. aclose_contexts contexts exc)
        (end_activation configs context scope expected s)
