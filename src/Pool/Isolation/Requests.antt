-- ===== src/Pool/Isolation/Requests.antt =====
-- Updates and custom jobs act on the connection that asks for them.
use mara_pool.Prelude.{ℕ, true, ◌≡◌, nat_eq, arith, done, beq_refl}
use mara_pool.Stratum.{StratumCore, UpdateChannel, SetCustomMiningJob}
use mara_pool.Pool.State.{RouteMessageTo}
use mara_pool.Pool.Access.{Locked}
use mara_pool.Pool.Requests.{
  update_reply, update_standard, update_extended, update_either, set_custom_job,
}
use mara_pool.Pool.Isolation.{is_for, IsLocal}

module _ ⦃core : StratumCore⦄ where
  pub update_either-IsLocal :
      (d : ℕ) (msg : UpdateChannel) (l : Locked) → IsLocal d l (update_either d msg l)
  unfolding update_either update_standard update_extended update_reply
  update_either-IsLocal d msg l = record {
    downstream_eq = ground arith;
    addressed = λ messages h. ground (arith, beq_refl d);
  }

  pub set_custom_job-others :
      (d : ℕ) (msg : SetCustomMiningJob) (l : Locked)
      → (set_custom_job d msg l).1.manager.downstream ≡ l.manager.downstream
  unfolding set_custom_job
  set_custom_job-others d msg l = ground arith

  pub set_custom_job-addressed :
      (d : ℕ) (msg : SetCustomMiningJob) (l : Locked) (message : RouteMessageTo)
      → (set_custom_job d msg l).0 ≡ done message
      → is_for d message ≡ true
  unfolding set_custom_job
  set_custom_job-addressed d msg l message h = ground (arith, beq_refl d)
