-- ===== src/Pool/Shares/Records.antt =====
-- What a judged share leaves in the persistence layer and sends to its client.
use mathlib.Core.List.{append-nil}
use mara_pool.Prelude.{
  ℕ, Bool, true, false, Option, none, some, ◌≡◌, ◌≢◌, refl, ◌⊎◌, inl, inr, List, [], ◌∷◌, ◌++◌,
  nat_eq, Result, ok, err, is_ok, done, arith, Option-cases, suc, ◌≤◌, if◌then◌else◌, sym,
}
use mara_pool.Stratum.{
  StratumCore, ServerChannel, ShareValidationError, ShareValidationResult, valid, block_found,
  ErrorCode, submit_shares_error, submit_shares_success,
}
use mara_pool.Pool.State.{RouteMessageTo, to_downstream, template_provider}
use mara_pool.Pool.Access.{Locked, ShareEvent}
use mara_pool.Pool.Shares.{
  Submission, Rejection, persisted_error, plain_error, returned, persist, solution, reject, respond,
  share_event, shares_error, shares_success,
}

module _ ⦃core : StratumCore⦄ where
  open core use {Hashrate, Work}

  -- The verdict is a block.
  abbrev pub is_block : Result ShareValidationError ShareValidationResult → Bool
  is_block (ok (valid hash)) = false
  is_block (ok (block_found hash template_id coinbase)) = true
  is_block (err e) = false

  abbrev pub hash_of : Result ShareValidationError ShareValidationResult → Option (List ℕ)
  hash_of (ok (valid hash)) = some hash
  hash_of (ok (block_found hash template_id coinbase)) = some hash
  hash_of (err e) = none

  -- The error code that a rejection has for the persisted event, if there is one.
  abbrev pub recorded_code : Rejection → Option ErrorCode
  recorded_code (persisted_error code) = some code
  recorded_code (plain_error code) = none
  recorded_code returned = none

  -- The share events that a verdict leaves behind.
  abbrev pub Leaves :
      (ShareValidationError → Rejection)
      → Result ShareValidationError ShareValidationResult
      → List ShareEvent
      → Type 0
  Leaves rejection verdict [] =
      (e : ShareValidationError) × (verdict ≡ err e) × (recorded_code (rejection e) ≡ none)
  Leaves rejection verdict (event ∷ []) =
      (event.is_valid ≡ is_ok verdict)
      × (event.is_block_found ≡ is_block verdict)
      × (event.share_hash ≡ hash_of verdict)
      × ((event.error_code ≡ none) × (is_ok verdict ≡ true)
          ⊎ ((e : ShareValidationError) × (verdict ≡ err e)
              × (event.error_code ≡ recorded_code (rejection e))
              × (recorded_code (rejection e) ≢ none)))
  Leaves rejection verdict (event ∷ more ∷ events) = ⊥

  -- How many messages of a reply refuse a share, accept shares, or carry a solution.
  abbrev pub refusals : List RouteMessageTo → ℕ
  refusals [] = 0
  refusals (to_downstream d (submit_shares_error e) ∷ ms) = suc (refusals ms)
  refusals (m ∷ ms) = refusals ms

  abbrev pub acceptances : List RouteMessageTo → ℕ
  acceptances [] = 0
  acceptances (to_downstream d (submit_shares_success s) ∷ ms) = suc (acceptances ms)
  acceptances (m ∷ ms) = acceptances ms

  abbrev pub solutions : List RouteMessageTo → ℕ
  solutions [] = 0
  solutions (template_provider m ∷ ms) = suc (solutions ms)
  solutions (m ∷ ms) = solutions ms

  -- The verdict is a block on a template of the provider, not on a custom job.
  abbrev pub on_template : Result ShareValidationError ShareValidationResult → Bool
  on_template (ok (block_found hash (some template_id) coinbase)) = true
  on_template (ok (block_found hash none coinbase)) = false
  on_template (ok (valid hash)) = false
  on_template (err e) = false

  module _ {Job E Share : Type 0} (ops : ServerChannel Hashrate Work Job E Share)
      (rejection : ShareValidationError → Rejection) (d : ℕ) (sub : Submission) (now : ℕ)
      (channel : ops.Channel) where
    reject-Leaves :
        (e : ShareValidationError) (r : Rejection) (l : Locked)
        → rejection e ≡ r
        → (new : List ShareEvent) × ((reject ops d sub now channel e r l).1.persisted
            ≡ l.persisted ++ new)
          × Leaves rejection (err e) new
    unfolding reject persist share_event
    reject-Leaves e (persisted_error code) l at = (
      record (share_event ops channel sub now) { error_code = some code } ∷ [],
      refl,
      (refl, refl, refl, inr (e, refl, ground arith, ground arith)),
    )
    reject-Leaves e (plain_error code) l at = ([], sym (append-nil l.persisted), (e, refl, rw at))
    reject-Leaves e returned l at = ([], sym (append-nil l.persisted), (e, refl, rw at))

    -- A judged share leaves one event, which is valid exactly when the share is, a block exactly when
    -- it is a block, carries the share's hash, and has no error code or the code of the rejection;
    -- it leaves none where the rejection is not recorded, and never two.
    pub respond-Leaves :
        (verdict : Result ShareValidationError ShareValidationResult) (l : Locked)
        → (new : List ShareEvent) × ((respond ops rejection d sub now channel verdict l).1.persisted
            ≡ l.persisted ++ new)
          × Leaves rejection verdict new
    unfolding respond persist share_event solution
    respond-Leaves (ok (valid hash)) l = (
      record (share_event ops channel sub now) { is_valid = true; share_hash = some hash } ∷ [],
      refl,
      (refl, refl, refl, inl (refl, refl)),
    )
    respond-Leaves (ok (block_found hash template_id coinbase)) l = (
      record (share_event ops channel sub now) {
        is_block_found = true;
        is_valid = true;
        share_hash = some hash;
        template_id = template_id;
      }
          ∷ [],
      ground (arith, Option-cases template_id),
      (refl, refl, refl, inl (refl, refl)),
    )
    respond-Leaves (err e) l = reject-Leaves e (rejection e) l refl

    reject-reply :
        (e : ShareValidationError) (r : Rejection) (l : Locked) (messages : List RouteMessageTo)
        → (reject ops d sub now channel e r l).0 ≡ done messages
        → (refusals messages ≡ 1) × (acceptances messages ≡ 0) × (solutions messages ≡ 0)
    unfolding reject persist shares_error
    reject-reply e (persisted_error code) l messages h = ground arith
    reject-reply e (plain_error code) l messages h = ground arith
    reject-reply e returned l messages h = ground arith

    -- A reply refuses a share exactly when its verdict is an error, carries a solution exactly for a
    -- block on a template, accepts shares at most once and only for a share that is valid, and does
    -- so at once for a block.
    pub respond_reply :
        (verdict : Result ShareValidationError ShareValidationResult) (l : Locked)
        (messages : List RouteMessageTo)
        → (respond ops rejection d sub now channel verdict l).0 ≡ done messages
        → (refusals messages ≡ (if is_ok verdict then 0 else 1))
          × (solutions messages ≡ (if on_template verdict then 1 else 0))
          × ((if is_block verdict then 1 else 0) ≤ acceptances messages)
          × (acceptances messages ≤ (if is_ok verdict then 1 else 0))
    unfolding respond persist solution shares_success
    respond_reply (ok (valid hash)) l messages h =
        (ground arith, ground arith, ground arith, ground arith)
    respond_reply (ok (block_found hash none coinbase)) l messages h =
        (ground arith, ground arith, ground arith, ground arith)
    respond_reply (ok (block_found hash (some t) coinbase)) l messages h =
        (ground arith, ground arith, ground arith, ground arith)
    respond_reply (err e) l messages h =
        let (refused, accepted, solved) = reject-reply e (rejection e) l messages h in
        (refused, solved, ground arith, ground (arith, accepted))
