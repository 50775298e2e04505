-- ===== src/Depends/Injection/Tests.antt =====
-- Injection of a few functions: a shared dependency, a cycle, and an asynchronous dependency.
use stratae.Prelude.{ℕ, zero, suc, ◌<◌, true, false, none, some, List, [], ◌∷◌, ◌≡◌, refl, arith}
use stratae.Depends.Injection.{
  annotated, Param, Func, circular, async_dependency, wraps, refused, last_provider, provider_of,
  any_quoted, is_postponed, rejects_object, rejects_async, resolve_parameter, resolve_parameters,
  resolve_function, inject,
}
use stratae.Depends.Injection.Graph.{Needs, IsInjectable}
use stratae.Depends.Injection.Resolution.{IsAnswer, inject-decides}

abbrev needing : ℕ → Param
needing q = record {
  annotation = annotated (none ∷ some q ∷ []);
  has_default = false;
  is_variadic = false;
}

abbrev sync_func : List Param → Func
sync_func params = record {
  params = params;
  is_wrapper = false;
  is_object = false;
  future = false;
  is_async = false;
  may_await = false;
}

-- A handler that needs a client and a session, which both need the settings.
abbrev shop : ℕ → Func
shop zero = sync_func (needing 1 ∷ needing 2 ∷ [])
shop (suc zero) = sync_func (needing 3 ∷ [])
shop (suc (suc zero)) = sync_func (needing 3 ∷ [])
shop (suc (suc (suc f))) = sync_func []

abbrev loop : ℕ → Func
loop zero = sync_func (needing 1 ∷ [])
loop (suc f) = sync_func (needing 0 ∷ [])

abbrev mixed : ℕ → Func
mixed zero = sync_func (needing 1 ∷ [])
mixed (suc f) = record (sync_func []) { is_async = true; may_await = true }

shop-closed : (f q : ℕ) → f < 4 → Needs shop f q → q < 4
unfolding provider_of last_provider
shop-closed zero q lt n = ground arith
shop-closed (suc zero) q lt n = ground arith
shop-closed (suc (suc zero)) q lt n = ground arith
shop-closed (suc (suc (suc f))) q lt n = absurd (cc (n.1))

inject-shop : (inject shop 4 0 (λ g. false)).0 ≡ wraps (1 ∷ 2 ∷ [])
unfolding inject resolve_function resolve_parameters resolve_parameter provider_of last_provider
    any_quoted is_postponed rejects_object rejects_async
inject-shop = refl

inject-loop : (inject loop 2 0 (λ g. false)).0 ≡ refused (circular 0)
unfolding inject resolve_function resolve_parameters resolve_parameter provider_of last_provider
    any_quoted is_postponed rejects_object rejects_async
inject-loop = refl

inject-mixed : (inject mixed 2 0 (λ g. false)).0 ≡ refused (async_dependency 0)
unfolding inject resolve_function resolve_parameters resolve_parameter provider_of last_provider
    any_quoted is_postponed rejects_object rejects_async
inject-mixed = refl

inject-decides_example :
    IsAnswer shop 4 0 (inject shop 4 0 (λ g. false)).0
    × ((g : ℕ) → (inject shop 4 0 (λ g. false)).1.resolved g ≡ true → IsInjectable shop g)
    × ((g : ℕ) → false ≡ true → (inject shop 4 0 (λ g. false)).1.resolved g ≡ true)
inject-decides_example =
    inject-decides shop 4 shop-closed 0 (λ g. false) (omega arith) (λ g e. absurd (cc e))
