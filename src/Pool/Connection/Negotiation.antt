-- ===== src/Pool/Connection/Negotiation.antt =====
-- The negotiation of extensions.
use mara_pool.Prelude.{
  ℕ, true, false, not, ◌&&◌, ◌≡◌, ◌≢◌, refl, inl, inr, List, [], ◌∷◌, nat_eq, ◌==◌, member, Result,
  done, arith, Bool-cases,
}
use mara_pool.Stratum.{StratumCore}
use mara_pool.Pool.Connection.{
  RequestExtensions, is_empty, common, unknown, should_send_error, Reply, Connection, send,
  refuse_extensions, accept_extensions, handle_request_extensions,
}

same_member : (x y : ℕ) (known : List ℕ) → (x == y) ≡ true → member x known ≡ member y known
same_member x y known h = let e : x ≡ y = ground arith in rw e refl

member-common :
    (x : ℕ) (known xs : List ℕ) → member x (common known xs) ≡ (member x known && member x xs)
unfolding common
member-common x known [] = ground arith
member-common x known (y ∷ ys) = elim (Bool-cases (x == y)) [
  | inl same ↦ ground (arith, member-common x known ys, same_member x y known same)
  | inr other ↦ ground (arith, member-common x known ys)
]

member-unknown :
    (x : ℕ) (known xs : List ℕ)
    → member x (unknown known xs) ≡ (not (member x known) && member x xs)
unfolding unknown
member-unknown x known [] = ground arith
member-unknown x known (y ∷ ys) = elim (Bool-cases (x == y)) [
  | inl same ↦ ground (arith, member-unknown x known ys, same_member x y known same)
  | inr other ↦ ground (arith, member-unknown x known ys)
]

empty_no_member : (x : ℕ) (xs : List ℕ) → is_empty xs ≡ true → member x xs ≡ false
unfolding is_empty
empty_no_member x [] h = refl
empty_no_member x (y ∷ ys) h = cc

no_member_empty : (xs : List ℕ) → ((x : ℕ) → member x xs ≡ false) → is_empty xs ≡ true
unfolding is_empty
no_member_empty [] h = refl
no_member_empty (y ∷ ys) h = let e = h y in ground arith

unknown_empty :
    (known xs : List ℕ)
    → ((x : ℕ) → member x xs ≡ true → member x known ≡ true)
    → is_empty (unknown known xs) ≡ true
unknown_empty known xs h = no_member_empty _ λ x. elim (Bool-cases (member x xs)) [
  | inl is ↦ ground (arith, member-unknown x known xs, h x is)
  | inr isnt ↦ ground (arith, member-unknown x known xs)
]

common_empty :
    (known xs : List ℕ)
    → ((x : ℕ) → member x xs ≡ true → member x known ≡ false)
    → is_empty (common known xs) ≡ true
common_empty known xs h = no_member_empty _ λ x. elim (Bool-cases (member x xs)) [
  | inl is ↦ ground (arith, member-common x known xs, h x is)
  | inr isnt ↦ ground (arith, member-common x known xs)
]

module _ ⦃core : StratumCore⦄ (encode : Reply → Result ℕ (Unit {0})) where
  -- The extensions that a connection has negotiated.
  abbrev pub negotiated : Connection → List ℕ
  negotiated c = c.downstream.downstream_data.negotiated_extensions

  -- A request that names every required extension and at least one that is supported leaves the
  -- connection with exactly the extensions that are requested and supported.
  pub request_accepted :
      (msg : RequestExtensions) (c : Connection) (y : ℕ)
      → member y c.downstream.supported_extensions ≡ true
      → member y msg.requested_extensions ≡ true
      → ((x : ℕ)
          → member x c.downstream.required_extensions ≡ true
          → member x msg.requested_extensions ≡ true)
      → (x : ℕ)
      → member x (negotiated (handle_request_extensions encode msg c).1)
        ≡ (member x c.downstream.supported_extensions && member x msg.requested_extensions)
  unfolding handle_request_extensions accept_extensions send should_send_error
  request_accepted msg c y supported requested covered x = ground (
    arith,
    member-common x c.downstream.supported_extensions msg.requested_extensions,
    member-common y c.downstream.supported_extensions msg.requested_extensions,
    empty_no_member y (common c.downstream.supported_extensions msg.requested_extensions),
    unknown_empty msg.requested_extensions c.downstream.required_extensions covered,
  )

  -- A request with no supported extension changes nothing in the connection's state.
  pub nothing_supported :
      (msg : RequestExtensions) (c : Connection)
      → ((x : ℕ)
          → member x msg.requested_extensions ≡ true
          → member x c.downstream.supported_extensions ≡ false)
      → (handle_request_extensions encode msg c).1.downstream ≡ c.downstream
  unfolding handle_request_extensions refuse_extensions send should_send_error
  nothing_supported msg c none_known =
      ground
        (arith, common_empty c.downstream.supported_extensions msg.requested_extensions none_known)

  -- Where a client does not request a required extension the handler does not return with success,
  -- and what was negotiated before stays.
  pub missing_required_fails :
      (msg : RequestExtensions) (c : Connection) (x : ℕ)
      → member x c.downstream.required_extensions ≡ true
      → member x msg.requested_extensions ≡ false
      → let (r, c') = handle_request_extensions encode msg c in
        (r ≢ done tt) × (negotiated c' ≡ negotiated c)
  unfolding handle_request_extensions refuse_extensions accept_extensions send should_send_error
  missing_required_fails msg c x required absent = ground (
    arith,
    member-unknown x msg.requested_extensions c.downstream.required_extensions,
    empty_no_member x (unknown msg.requested_extensions c.downstream.required_extensions),
  )
