-- ===== src/UsbHil/Returns.antt =====
-- Calls of the session that return (scripts/phase3/run_usb_hil.py, `UsbSession`): inversion of
-- chains, and what a returned echo has seen.
use mathlib.Core.Path.{subst}
use hpm5321_can_analyzer.Common.{
  ℕ, zero, suc, ◌%◌, ◌≡◌, ◌∙◌, refl, sym, ap, inl, inr, Bool, true, false, not, ◌||◌, Option, none,
  some, List, [], length, take, leb, ◌==◌, if◌then◌else◌, arith, Bool-cases,
}
use hpm5321_can_analyzer.Common.Int.{pos, eqb_ℤ, eqb_ℤ→eq}
use hpm5321_can_analyzer.Common.Text.{text_eq, text_eq→eq}
use hpm5321_can_analyzer.UsbHil.FullSpeed.{ep_out, ep_in}
use hpm5321_can_analyzer.UsbHil.Session.{
  Environment, UsbError, UsbState, Outcome, returned, raised, cut_off, M, then_do, ◌>>=◌, require,
  need_handle, zeros, as_count, device_out_window, mismatch_at, mismatch_error, transfer,
  terminate_hs_out_transfer, write, read, echo,
}

pub returned-injective : {A : Type 0} {a b : A} → returned a ≡ returned b → a ≡ b
returned-injective h = cc

module _ {World : Type 0} where
  -- A chain that returns has returned at its first step.
  pub record Chain {A B : Type 0} (first : Outcome A × UsbState World) (next : A → M World B)
      (out : Outcome B × UsbState World) : Type 0 where
    pub value : A
    pub state : UsbState World
    pub first_is : first ≡ (returned value, state)
    pub next_is : next value state ≡ out

  pub then_do-Chain :
      {A B : Type 0} (first : Outcome A × UsbState World) (next : A → M World B) (b : B)
      (s' : UsbState World)
      → then_do next first ≡ (returned b, s')
      → Chain first next (returned b, s')
  then_do-Chain (returned a, s) next b s' h = record {
    value = a;
    state = s;
    first_is = refl;
    next_is = h;
  }
  then_do-Chain (raised e, s) next b s' h = cc
  then_do-Chain (cut_off, s) next b s' h = cc

  pub require_returns :
      (test : Bool) (e : UsbError) (s s' : UsbState World)
      → require test e s ≡ (returned tt, s')
      → (test ≡ true) × (s ≡ s')
  require_returns true e s s' h = (refl, ap (λ p. p.1) h)
  require_returns false e s s' h = cc

  pub need_handle_returns :
      (s s' : UsbState World) (h : ℕ)
      → need_handle s ≡ (returned h, s')
      → (s.handle ≡ some h) × (s ≡ s')
  need_handle_returns s s' h e = by_handle s.handle refl e
    where
      by_handle :
          (o : Option ℕ)
          → s.handle ≡ o
          → (elim o as (λ x. Outcome ℕ × UsbState World) [
            | none ↦ (raised UsbError.handle_closed, s)
            | some k ↦ (returned k, s)
          ])
            ≡ (returned h, s')
          → (s.handle ≡ some h) × (s ≡ s')
      by_handle none is e = cc
      by_handle (some k) is e =
          (is ∙ ap some (returned-injective (ap (λ p. p.0) e)), ap (λ p. p.1) e)

-- What libusb reported of a bulk transfer that was accepted, and the state after it.
pub record IsTransferred {World : Type 0} (env : Environment World) (handle endpoint : ℕ)
    (buffer out : List ℕ) (s s' : UsbState World) : Type 0 where
  pub code : (env.bulk_transfer handle endpoint buffer s.world).0.code ≡ pos 0
  pub all_of_it :
      (env.bulk_transfer handle endpoint buffer s.world).0.transferred ≡ pos (length buffer)
  pub bytes : out ≡ take (length buffer) (env.bulk_transfer handle endpoint buffer s.world).0.buffer
  pub after : s' ≡ record s { world = (env.bulk_transfer handle endpoint buffer s.world).1 }

length-zeros : (n : ℕ) → length (zeros n) ≡ n
length-zeros zero = refl
length-zeros (suc n) = omega (arith, length-zeros n)

module _ {World : Type 0} (env : Environment World) (handle endpoint : ℕ) where
  -- The buffer that `transfer` passes on.
  abbrev pub buffer_of : List ℕ → List ℕ
  buffer_of bytes = if endpoint == ep_out then bytes else zeros (length bytes)

  length-buffer_of : (bytes : List ℕ) → length (buffer_of bytes) ≡ length bytes
  length-buffer_of bytes = elim (Bool-cases (endpoint == ep_out)) [
    | inl out ↦ rw out refl
    | inr other ↦ rw other (length-zeros (length bytes))
  ]

  pub transfer_returns :
      (bytes out : List ℕ) (s s' : UsbState World)
      → transfer env handle endpoint bytes s ≡ (returned out, s')
      → IsTransferred env handle endpoint (buffer_of bytes) out s s'
  unfolding transfer
  transfer_returns bytes out s s' h =
      let bulk = (env.bulk_transfer handle endpoint (buffer_of bytes) s.world).0 in
      let size = length-buffer_of bytes in
      elim (Bool-cases (eqb_ℤ bulk.code (pos 0))) [
        | inr bad ↦ let h' = rw (bad, transfer) at h in cc
        | inl good ↦ elim (Bool-cases (eqb_ℤ bulk.transferred (pos (length bytes)))) [
          | inr short ↦ let h' = rw (good, short, transfer) at h in cc
          | inl full ↦
              let h' = rw (good, full, transfer) at h in
              let count = eqb_ℤ→eq _ _ full in
              record {
                code = eqb_ℤ→eq _ _ good;
                all_of_it = count ∙ ap pos (sym size);
                bytes =
                    sym (returned-injective (ap (λ p. p.0) h'))
                    ∙ ap (λ n. take n bulk.buffer) (ap as_count count ∙ sym size);
                after = sym (ap (λ p. p.1) h');
              }
        ]
      ]

module _ {World : Type 0} (env : Environment World) where
  terminate_keeps :
      (handle size window : ℕ) (s s' : UsbState World)
      → terminate_hs_out_transfer env handle size window s ≡ (returned tt, s')
      → s'.handle ≡ s.handle
  unfolding terminate_hs_out_transfer
  terminate_keeps handle size window s s' h =
      elim (Bool-cases (leb window size || not (size % 512 == 0))) [
        | inl skip ↦ ap (λ p. p.1.handle) (sym (rw (skip, terminate_hs_out_transfer) at h))
        | inr boundary ↦
            elim (Bool-cases (eqb_ℤ (env.bulk_transfer handle ep_out [] s.world).0.code (pos 0))) [
              | inr bad ↦ let h' = rw (boundary, bad, terminate_hs_out_transfer) at h in cc
              | inl good ↦
                  ap (λ p. p.1.handle) (sym (rw (boundary, good, terminate_hs_out_transfer) at h))
            ]
      ]

  -- The payload has been sent, whole and without an error.
  pub record IsWritten (payload : List ℕ) (s s' : UsbState World) : Type 0 where
    pub handle : ℕ
    pub open_before : s.handle ≡ some handle
    pub open_after : s'.handle ≡ some handle
    pub sent : List ℕ
    pub state : UsbState World
    pub transferred : IsTransferred env handle ep_out payload sent s state

  write_at :
      (payload : List ℕ) (open_handle : Option ℕ) (w : World) (s' : UsbState World)
      → write env payload (record { world = w; handle = open_handle }) ≡ (returned tt, s')
      → IsWritten payload (record { world = w; handle = open_handle }) s'
  unfolding write
  write_at payload none w s' h = cc
  write_at payload (some handle) w s' h =
      let s : UsbState World = record { world = w; handle = some handle } in
      let c =
        then_do-Chain (transfer env handle ep_out payload s)
          (λ sent. terminate_hs_out_transfer env handle (length payload) device_out_window) tt s'
          h in
      let t = transfer_returns env handle ep_out payload c.value s c.state c.first_is in
      let same = ap (λ x. x.handle) t.after in
      record {
        handle = handle;
        open_before = refl;
        open_after =
            terminate_keeps handle (length payload) device_out_window c.state s' c.next_is ∙ same;
        sent = c.value;
        state = c.state;
        transferred = t;
      }

  pub write_returns :
      (payload : List ℕ) (s s' : UsbState World)
      → write env payload s ≡ (returned tt, s')
      → IsWritten payload s s'
  write_returns payload s s' h = write_at payload s.handle s.world s' h

  -- As many bytes as asked for have been received.
  pub record IsRead (size : ℕ) (bytes : List ℕ) (s s' : UsbState World) : Type 0 where
    pub handle : ℕ
    pub open_before : s.handle ≡ some handle
    pub open_after : s'.handle ≡ some handle
    pub transferred : IsTransferred env handle ep_in (zeros size) bytes s s'

  read_at :
      (size : ℕ) (bytes : List ℕ) (open_handle : Option ℕ) (w : World) (s' : UsbState World)
      → read env size (record { world = w; handle = open_handle }) ≡ (returned bytes, s')
      → IsRead size bytes (record { world = w; handle = open_handle }) s'
  unfolding read
  read_at size bytes none w s' h = cc
  read_at size bytes (some handle) w s' h =
      let s : UsbState World = record { world = w; handle = some handle } in
      let t0 = transfer_returns env handle ep_in (zeros size) bytes s s' h in
      let t =
        subst (λ b. IsTransferred env handle ep_in b bytes s s') (ap zeros (length-zeros size))
          t0 in
      record {
        handle = handle;
        open_before = refl;
        open_after = ap (λ x. x.handle) t.after;
        transferred = t;
      }

  pub read_returns :
      (size : ℕ) (bytes : List ℕ) (s s' : UsbState World)
      → read env size s ≡ (returned bytes, s')
      → IsRead size bytes s s'
  read_returns size bytes s s' h = read_at size bytes s.handle s.world s' h

  -- The payload was sent whole, and then as many bytes were received, which are the payload.
  pub record IsEchoed (payload : List ℕ) (s s' : UsbState World) : Type 0 where
    pub between : UsbState World
    pub written : IsWritten payload s between
    pub received : IsRead (length payload) payload between s'

  -- Whatever the device does, an echo that returns has sent the payload whole and has received the
  -- same bytes, both without an error, on the handle that was open and stays open.
  pub echo-IsEchoed :
      (payload : List ℕ) (s s' : UsbState World)
      → echo env payload s ≡ (returned tt, s')
      → IsEchoed payload s s'
  unfolding echo
  echo-IsEchoed payload s s' h =
      let compare = λ (echoed : List ℕ).
        require {World = World} (text_eq echoed payload)
          (mismatch_error (mismatch_at payload echoed 0)) in
      let c =
        then_do-Chain (write env payload s) (λ done. read env (length payload) >>= compare) tt s'
          h in
      let d = then_do-Chain (read env (length payload) c.state) compare tt s' c.next_is in
      let r =
        require_returns (text_eq d.value payload) (mismatch_error (mismatch_at payload d.value 0))
          d.state s' d.next_is in
      let received = read_returns (length payload) d.value c.state d.state d.first_is in
      record {
        between = c.state;
        written = write_returns payload s c.state c.first_is;
        received =
            subst (λ b. IsRead (length payload) b c.state s') (text_eq→eq d.value payload r.0)
              (subst (λ x. IsRead (length payload) d.value c.state x) r.1 received);
      }
