-- ===== src/Controller/Sweep/Errors.antt =====
-- The effect and the error of a whole sweep.
use cs331_t011_kubernetes_se.Common.{ℕ, suc, ◌≡◌, refl, ap, ◌∙◌, Option, none, some, List, [], ◌∷◌}
use cs331_t011_kubernetes_se.Go.Floats.{Floats}
use cs331_t011_kubernetes_se.Controller.Probe.{Formats}
use cs331_t011_kubernetes_se.Controller.Resource.{Api, Operator}
use cs331_t011_kubernetes_se.Controller.Sweep.{
  Item, listed, SweepError, Clocks, Turn, keep_first, visit_item, sweep_items, reconcile_all,
}

module _ {C : Type 0} (fl : Floats) (formats : Formats) (api : Api C fl.F) (clocks : Clocks) where
  module _ (turns : ℕ → Turn clocks fl.F) where
    -- The operator after every item in its turn, whatever the errors.
    abbrev pub visited : ℕ → List Item → Operator C fl.F → Operator C fl.F
    visited i [] op = op
    visited i (item ∷ items) op =
        visited (suc i) items (visit_item fl formats api clocks (turns i) item op).0

    abbrev cons_error : Option SweepError → List SweepError → List SweepError
    cons_error none errors = errors
    cons_error (some err) errors = err ∷ errors

    -- The errors of all the items, in order.
    abbrev pub errors : ℕ → List Item → Operator C fl.F → List SweepError
    errors i [] op = []
    errors i (item ∷ items) op =
        let (op', err) = visit_item fl formats api clocks (turns i) item op in
        cons_error err (errors (suc i) items op')

    abbrev pub first_of : List SweepError → Option SweepError
    first_of [] = none
    first_of (err ∷ errors) = some err

    keep_first-first_of :
        (first err : Option SweepError) (rest : List SweepError)
        → keep_first (keep_first first err) (first_of rest)
          ≡ keep_first first (first_of (cons_error err rest))
    unfolding keep_first
    keep_first-first_of (some first) err rest = refl
    keep_first-first_of none none rest = refl
    keep_first-first_of none (some err) rest = refl

    pub sweep_items_lem :
        (i : ℕ) (items : List Item) (op : Operator C fl.F) (first : Option SweepError)
        → sweep_items fl formats api clocks turns i items op first
          ≡ (visited i items op, keep_first first (first_of (errors i items op)))
    unfolding sweep_items
    sweep_items_lem i [] op (some first) = unfold keep_first in refl
    sweep_items_lem i [] op none = unfold keep_first in refl
    sweep_items_lem i (item ∷ items) op first =
        let (op', err) = visit_item fl formats api clocks (turns i) item op in
        sweep_items_lem (suc i) items op' (keep_first first err)
        ∙ ap (λ e. (visited (suc i) items op', e))
            (keep_first-first_of first err (errors (suc i) items op'))

    -- An error of one resource does not keep the sweep from the next ones: the operator is that
    -- after a visit of every item in its turn, and the error returned is the first of all of them.
    pub reconcile_all_lem :
        (items : List Item) (op : Operator C fl.F)
        → reconcile_all fl formats api clocks turns (listed items) op
          ≡ (visited 0 items op, first_of (errors 0 items op))
    unfolding reconcile_all keep_first
    reconcile_all_lem items op = sweep_items_lem 0 items op none
