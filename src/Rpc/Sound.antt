-- ===== src/Rpc/Sound.antt =====
-- When `handle_request` calls a handler, and what it answers otherwise.
use r_environment_tools.Base.{
  ◌≡◌, ◌≢◌, ◌⊎◌, inl, inr, refl, sym, ap, ◌∙◌, true, false, Option, none, some, Text, codes,
  same_text, any, arith, and_then, unwrap_or, Bool-cases, ◌&&◌, and_parts,
}
use r_environment_tools.Rpc.{
  Value, null, get, as_str, is_id, is_params, is_version, is_none_or_id, Handlers, Dispatch,
  request, notification, ignored, rejected, invalid_request, invalid_params, method_not_found,
  handle_request, call, with_method,
}

module _ (h : Handlers) (message : Value) where
  abbrev pub id_of : Option Value
  id_of = get (codes "id") message

  abbrev pub params_of : Value
  params_of = unwrap_or (get (codes "params") message) null

  pub record IsCall (method : Text) (params : Value) : Type 0 where
    pub version : is_version (and_then (get (codes "jsonrpc") message) as_str) ≡ true
    pub named : and_then (get (codes "method") message) as_str ≡ some method
    pub passed : params ≡ params_of
    pub structured : is_params params ≡ true

  -- The version, a method that is a text, and an identifier of an allowed kind if there is one.
  pub record IsEnvelope (method : Text) : Type 0 where
    pub versioned : is_version (and_then (get (codes "jsonrpc") message) as_str) ≡ true
    pub names : and_then (get (codes "method") message) as_str ≡ some method
    pub identified : is_none_or_id id_of ≡ true

  -- Each outcome with what the message is then: nothing is dropped but a notification that no
  -- handler takes, and each error has its reason.
  abbrev pub Sound : Dispatch → Type 0
  Sound (request method id params) =
      IsCall method params
      × IsEnvelope method
      × (any (same_text method) h.requests ≡ true)
      × (id_of ≡ some id)
      × (is_id id ≡ true)
  Sound (notification method params) =
      IsCall method params
      × IsEnvelope method
      × (any (same_text method) h.notifications ≡ true)
      × (id_of ≡ none)
  Sound ignored =
      (method : Text) × IsEnvelope method
      × (id_of ≡ none)
      × ((is_params params_of && any (same_text method) h.notifications) ≡ false)
  Sound (rejected e) =
      (((method : Text) → ¬ IsEnvelope method) × (e.id ≡ none) × (e.code ≡ invalid_request))
      ⊎ ((method : Text) × IsEnvelope method
          × (e.id ≢ none)
          × (e.id ≡ id_of)
          × (((is_params params_of ≡ false) × (e.code ≡ invalid_params))
              ⊎ ((is_params params_of ≡ true)
                  × (any (same_text method) h.requests ≡ false)
                  × (e.code ≡ method_not_found))))

  IsEnvelope-IsCall :
      (method : Text) → IsEnvelope method → is_params params_of ≡ true → IsCall method params_of
  IsEnvelope-IsCall method v p = record {
    version = v.versioned;
    named = v.names;
    passed = refl;
    structured = p;
  }

  call-Sound :
      (method : Text) (id : Option Value)
      → IsEnvelope method
      → id_of ≡ id
      → Sound (call h method id params_of)
  unfolding call
  call-Sound method none v e = elim (Bool-cases (is_params params_of)) [
    | inr p ↦ rw (p) (method, v, e, rw (p) refl)
    | inl p ↦ elim (Bool-cases (any (same_text method) h.notifications)) [
      | inl m ↦ rw (p, m) (IsEnvelope-IsCall method v p, v, m, e)
      | inr m ↦ rw (p, m) (method, v, e, rw (p, m) refl)
    ]
  ]
  call-Sound method (some id) v e = elim (Bool-cases (is_params params_of)) [
    | inr p ↦ rw (p) (inr (method, v, (λ k. cc), sym e, inl (p, refl)))
    | inl p ↦ elim (Bool-cases (any (same_text method) h.requests)) [
      | inl m ↦
          rw (p, m) (IsEnvelope-IsCall method v p, v, m, e, ap is_none_or_id (sym e) ∙ v.identified)
      | inr m ↦ rw (p, m) (inr (method, v, (λ k. cc), sym e, inr (p, m, refl)))
    ]
  ]

  with_method-Sound :
      (method : Option Text)
      → and_then (get (codes "method") message) as_str ≡ method
      → Sound (with_method h message method)
  with_method-Sound none m = inl ((λ method v. cc (v.names)), refl, refl)
  with_method-Sound (some method) m =
      elim (Bool-cases
        (is_version (and_then (get (codes "jsonrpc") message) as_str) && is_none_or_id id_of)) [
          | inl z ↦
              let (v, i) = and_parts _ _ z in
              rw z
                (call-Sound method id_of (record { versioned = v; names = m; identified = i }) refl)
          | inr z ↦ rw z (inl ((λ other v. ground (arith, v.versioned, v.identified)), refl, refl))
        ]

  -- A handler is called only for a registered method of a valid envelope with structured
  -- parameters, a request handler with the message's own id and a notification handler only where
  -- there is none. Nothing is dropped in silence but valid envelopes without an id, whose
  -- parameters are not structured or whose method has no handler. An error is sent in three cases:
  -- an invalid request, without an id, exactly if the envelope is not valid; otherwise with the
  -- message's id, invalid parameters if they are not structured, and else an unknown method if no
  -- handler is registered for it.
  pub handle_request-Sound : Sound (handle_request h message)
  unfolding handle_request
  handle_request-Sound = with_method-Sound _ refl
