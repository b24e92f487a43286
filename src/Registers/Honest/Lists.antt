-- ===== src/Registers/Honest/Lists.antt =====
-- The handlers of the worker and farm structure registers announce what the server accepted.
use koranco.Base.{String, refl, inl, inr, Bool, not, ◌||◌, List, Result, truthy, trim, if_either}
use koranco.Types.Server.{Worker, FarmUnit}
use koranco.Api.{ApiRequest}
use koranco.Api.Structure
use koranco.Api.Structure.{list_workers, list_farm_units, put_or_post}
use koranco.Api.Guarded.{put_or_post-mutates}
use koranco.Client.{post}
use koranco.HarvestPage.State.{null_if_empty}
use koranco.Registers.Service.{Service}
use koranco.Registers.Workers as W
use koranco.Registers.FarmStructure as F
use koranco.Registers.Actions.{
  save_worker, worker_status, save_unit, unit_status, workers_view, units_view, outcome, IsHonest,
  performed, nothing_sent, mutate-IsChange,
}

pub save_worker-IsHonest :
    (l : Result (List Worker)) (c n : String) (s : W.WorkersState) (v : Service)
    → IsHonest v s.message (outcome (save_worker l c n s) v)
unfolding outcome W.submit list_workers
save_worker-IsHonest l c n s v =
    let w = W.edited_worker s.editing in
    if_either (λ (x : W.WorkersState × List ApiRequest). IsHonest v s.message (workers_view x))
      (not (truthy (trim c)) || not (truthy (trim n))) _ _ (nothing_sent refl (inl refl))
      (performed v s.message (Structure.save_worker w (trim c) (trim n) v.session)
        (λ r. workers_view (W.saved l s r))
        (unfold Structure.save_worker in
          mutate-IsChange (put_or_post w) _ _ v.session (put_or_post-mutates w))
        (λ e sent. (refl, inl refl))
        (λ sent. inr (list_workers s.search s.status, (refl, refl, refl), refl)))

pub worker_status-IsHonest :
    (c : Bool) (l : Result (List Worker)) (w : Worker) (s : W.WorkersState) (v : Service)
    → IsHonest v s.message (outcome (worker_status c l w s) v)
unfolding outcome W.lifecycle list_workers
worker_status-IsHonest c l w s v =
    if_either (λ (x : W.WorkersState × List ApiRequest). IsHonest v s.message (workers_view x))
      (not c) _ _ (nothing_sent refl (inl refl))
      (performed v s.message (Structure.set_worker_status w "" v.session)
        (λ r. workers_view (W.status_changed l w s r))
        (unfold Structure.set_worker_status in mutate-IsChange post _ _ v.session refl)
        (λ e sent. (refl, inl refl))
        (λ sent. inr (list_workers s.search s.status, (refl, refl, refl), refl)))

pub save_unit-IsHonest :
    (l : Result (List FarmUnit)) (f : F.UnitForm) (s : F.UnitsState) (v : Service)
    → IsHonest v s.message (outcome (save_unit l f s) v)
unfolding outcome F.submit list_farm_units
save_unit-IsHonest l f s v =
    let u = F.edited_unit s.editing in
    let parent = null_if_empty f.parent_id in
    if_either (λ (x : F.UnitsState × List ApiRequest). IsHonest v s.message (units_view x))
      (not (truthy (trim f.code)) || not (truthy (trim f.name))) _ _ (nothing_sent refl (inl refl))
      (performed v s.message
        (Structure.save_farm_unit u (trim f.code) (trim f.name) f.unit_type parent v.session)
        (λ r. units_view (F.saved l s r))
        (unfold Structure.save_farm_unit in
          mutate-IsChange (put_or_post u) _ _ v.session (put_or_post-mutates u))
        (λ e sent. (refl, inl refl))
        (λ sent. inr (list_farm_units s.search s.status s.unit_type, (refl, refl, refl), refl)))

pub unit_status-IsHonest :
    (c : Bool) (l : Result (List FarmUnit)) (u : FarmUnit) (s : F.UnitsState) (v : Service)
    → IsHonest v s.message (outcome (unit_status c l u s) v)
unfolding outcome F.lifecycle list_farm_units
unit_status-IsHonest c l u s v =
    if_either (λ (x : F.UnitsState × List ApiRequest). IsHonest v s.message (units_view x)) (not c)
      _ _ (nothing_sent refl (inl refl))
      (performed v s.message (Structure.set_farm_unit_status u v.session)
        (λ r. units_view (F.status_changed l u s r))
        (unfold Structure.set_farm_unit_status in mutate-IsChange post _ _ v.session refl)
        (λ e sent. (refl, inl refl))
        (λ sent. inr (list_farm_units s.search s.status s.unit_type, (refl, refl, refl), refl)))
