-- ===== src/Depends/Injection.antt =====
-- stratae/depends/injection.py: `inject` as far as it resolves a function's injected parameters.
-- Functions are numbers, and so are providers, each by the function that it was made for.
-- What `inspect` finds out about a function is data; annotations are evaluated already.

pub mod Graph
mod Soundness
mod Parameters
pub mod Resolution
mod Tests
use stratae.Prelude.{
  ℕ, zero, suc, Bool, true, false, Option, none, some, List, [], ◌∷◌, ◌++◌, ◌==◌, ◌&&◌, ◌||◌, not,
  is_empty, if◌then◌else◌,
}

-- An annotation: one that is not injected, a string that evaluates to one that is, or `Annotated`
-- with its metadata, in which a provider is told by its function.
pub data Annotation : Type 0 where
  plain quoted : Annotation
  annotated : List (Option ℕ) → Annotation

pub record Param : Type 0 where
  pub annotation : Annotation
  pub has_default : Bool
  pub is_variadic : Bool

-- `is_wrapper` is `__stratae_resolved__`; `is_object` tells that it is neither a function, a method
-- nor a class; `future` that its module postpones annotations. `is_async` is `Provider.is_async`,
-- and `may_await` also holds of an asynchronous generator function.
pub record Func : Type 0 where
  pub params : List Param
  pub is_wrapper : Bool
  pub is_object : Bool
  pub future : Bool
  pub is_async : Bool
  pub may_await : Bool

-- The errors, with the function that they are about.
pub data Error : Type 0 where
  circular postponed string_annotation injected_default uninjectable async_dependency : ℕ → Error

-- `exhausted` stands for fuel that ran out. A function without injected parameters is returned as it
-- is, and one with some as a wrapper of it.
pub data Answer : Type 0 where
  wraps : List ℕ → Answer
  refused : Error → Answer
  exhausted : Answer

-- A parameter's provider, if it has one.
pub data Resolved : Type 0 where
  not_injected : Resolved
  injected : ℕ → Resolved
  rejected : Error → Resolved
  unfinished : Resolved

-- `Provider.resolved`, and the set `_resolving`.
pub record Registry : Type 0 where
  pub resolved : ℕ → Bool
  pub resolving : ℕ → Bool

abbrev pub mark : ℕ → (ℕ → Bool) → ℕ → Bool
mark f set g = if g == f then true else set g

abbrev pub or_else : Option ℕ → Option ℕ → Option ℕ
or_else none o = o
or_else (some p) o = some p

-- `_get_annotated_info`: the last provider of the metadata.
unfoldable pub last_provider : List (Option ℕ) → Option ℕ
last_provider [] = none
last_provider (x ∷ xs) = or_else (last_provider xs) x

-- The provider of an annotation that is evaluated.
unfoldable pub provider_of : Annotation → Option ℕ
provider_of plain = none
provider_of quoted = none
provider_of (annotated metadata) = last_provider metadata

abbrev pub is_quoted : Annotation → Bool
is_quoted plain = false
is_quoted quoted = true
is_quoted (annotated metadata) = false

-- `_reject_quoted_dependencies`
unfoldable pub any_quoted : List Param → Bool
any_quoted [] = false
any_quoted (p ∷ ps) = is_quoted p.annotation || any_quoted ps

abbrev pub any_required : List Param → Bool
any_required [] = false
any_required (p ∷ ps) = (not p.has_default && not p.is_variadic) || any_required ps

-- `_reject_future_annotations`
unfoldable pub is_postponed : Func → Bool
is_postponed func = any_required func.params && func.future

module _ (funcs : ℕ → Func) where
  abbrev pub any_async : List ℕ → Bool
  any_async [] = false
  any_async (q ∷ qs) = (funcs q).is_async || any_async qs

  -- `_reject_callable_objects`
  unfoldable pub rejects_object : Func → List ℕ → Bool
  rejects_object func deps = not (is_empty deps) && func.is_object

  -- `_validate_sync_async_constraint`
  unfoldable pub rejects_async : Func → List ℕ → Bool
  rejects_async func deps = if func.may_await then false else any_async deps

-- What becomes of a provider once its function is resolved.
abbrev pub on_resolved : ℕ → Answer × Registry → Resolved × Registry
on_resolved q (wraps deps, s) = (injected q, record s { resolved = mark q s.resolved })
on_resolved q (refused e, s) = (rejected e, s)
on_resolved q (exhausted, s) = (unfinished, s)

-- `_resolve_parameter` of a function `f`, where `rec` resolves a function.
module _ (rec : ℕ → Registry → Answer × Registry) where
  abbrev pub on_depends : ℕ → Bool → Registry → Resolved × Registry
  on_depends q true s = (injected q, s)
  on_depends q false s = on_resolved q (rec q s)

  abbrev pub on_provider : ℕ → Option ℕ → Bool → Registry → Resolved × Registry
  on_provider f none has_default s = (not_injected, s)
  on_provider f (some q) true s = (rejected (injected_default f), s)
  on_provider f (some q) false s = on_depends q (s.resolved q) s

  unfoldable pub resolve_parameter : ℕ → Param → Registry → Resolved × Registry
  resolve_parameter f p s = on_provider f (provider_of p.annotation) p.has_default s

abbrev pub then_params :
    (List ℕ → Registry → Answer × Registry) → List ℕ → Resolved × Registry → Answer × Registry
then_params rest deps (not_injected, s) = rest deps s
then_params rest deps (injected q, s) = rest (deps ++ q ∷ []) s
then_params rest deps (rejected e, s) = (refused e, s)
then_params rest deps (unfinished, s) = (exhausted, s)

-- `_resolve_parameters`, with the providers found so far.
unfoldable pub resolve_parameters :
    (ℕ → Registry → Answer × Registry) → ℕ → List Param → List ℕ → Registry → Answer × Registry
resolve_parameters rec f [] deps s = (wraps deps, s)
resolve_parameters rec f (p ∷ ps) deps s =
    then_params (resolve_parameters rec f ps) deps (resolve_parameter rec f p s)

module _ (funcs : ℕ → Func) where
  -- The checks of what has been resolved.
  abbrev pub validate : ℕ → Answer × Registry → Answer × Registry
  validate f (wraps deps, s) =
      if rejects_object funcs (funcs f) deps
      then (refused (uninjectable f), s)
      else if rejects_async funcs (funcs f) deps
      then (refused (async_dependency f), s)
      else (wraps deps, s)
  validate f (refused e, s) = (refused e, s)
  validate f (exhausted, s) = (exhausted, s)

  abbrev pub enter : ℕ → Registry → Registry
  enter f s = record s { resolving = mark f s.resolving }

  abbrev pub resolve_entered :
      (ℕ → Registry → Answer × Registry) → ℕ → Bool → Bool → Registry → Answer × Registry
  resolve_entered rec f true q s = (refused (postponed f), s)
  resolve_entered rec f false true s = (refused (string_annotation f), s)
  resolve_entered rec f false false s = validate f (resolve_parameters rec f (funcs f).params [] s)

  abbrev pub on_entry :
      (ℕ → Registry → Answer × Registry) → ℕ → Bool → Bool → Registry → Answer × Registry
  on_entry rec f true r s = (wraps [], s)
  on_entry rec f false true s = (refused (circular f), s)
  on_entry rec f false false s =
      resolve_entered rec f (is_postponed (funcs f)) (any_quoted (funcs f).params) (enter f s)

  -- `_resolve_function`, on fuel for the depth of its recursion.
  unfoldable pub resolve_function : ℕ → ℕ → Registry → Answer × Registry
  resolve_function zero f s = (exhausted, s)
  resolve_function (suc fuel) f s =
      on_entry (resolve_function fuel) f (funcs f).is_wrapper (s.resolving f) s

  -- `inject`, where some providers have been resolved by earlier calls; `count` is a bound of the
  -- functions.
  unfoldable pub inject : ℕ → ℕ → (ℕ → Bool) → Answer × Registry
  inject count f resolved =
      resolve_function (suc count) f (record { resolved = resolved; resolving = λ (g : ℕ). false })
