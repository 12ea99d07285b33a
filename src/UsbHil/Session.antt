-- ===== src/UsbHil/Session.antt =====
-- The session with the device (scripts/phase3/run_usb_hil.py, `UsbSession`, and
-- scripts/phase0/usb_bulk_loopback.py, `transfer` and `terminate_hs_out_transfer`). libusb, the
-- clock, the random generator and the evidence file are an environment with a world of its own;
-- times are whole nanoseconds and bytes are numbers.
use hpm5321_can_analyzer.Common.{
  ℕ, zero, suc, ◌+◌, ◌-◌, ◌*◌, ◌%◌, Bool, true, false, not, ◌||◌, Option, none, some, List, [], ◌∷◌,
  length, take, ltb, leb, ◌==◌, if◌then◌else◌,
}
use hpm5321_can_analyzer.Common.Int.{ℤ, pos, negsuc, eqb_ℤ, ltb_ℤ}
use hpm5321_can_analyzer.Common.Text.{text_eq}
use hpm5321_can_analyzer.UsbHil.Descriptor.{byte}
use hpm5321_can_analyzer.UsbHil.FullSpeed.{ep_out, ep_in}

-- What `libusb_bulk_transfer` leaves: its result, the count transferred, and the buffer.
pub record Bulk : Type 0 where
  pub code : ℤ
  pub transferred : ℤ
  pub buffer : List ℕ

-- A handle is a number; `open_device` gives `none` for NULL. `write_evidence` says whether the file
-- could be written.
pub record Environment (World : Type 0) : Type 0 where
  pub init : World → ℤ × World
  pub exit : World → World
  pub open_device : World → Option ℕ × World
  pub claim_interface : (handle : ℕ) → World → ℤ × World
  pub release_interface : (handle : ℕ) → World → World
  pub close_device : (handle : ℕ) → World → World
  pub bulk_transfer : (handle endpoint : ℕ) → (buffer : List ℕ) → World → Bulk × World
  pub control_transfer :
      (handle request_type request value index : ℕ)
      → (buffer : List ℕ) → World
      → (ℤ × List ℕ) × World
  pub clear_halt : (handle endpoint : ℕ) → World → ℤ × World
  pub reset_device : (handle : ℕ) → World → ℤ × World
  pub monotonic : World → ℕ × World
  pub sleep : ℕ → World → World
  pub randbytes : (size : ℕ) → World → List ℕ × World
  pub write_evidence : World → Bool × World

-- The messages of the RuntimeError, and the other exceptions.
pub data UsbError : Type 0 where
  libusb_init bad_metadata recovery_timeout handle_closed zero_length_packet reset invalid_qualifier
        invalid_endpoints read_pause_mismatch chunk_size not_forced_full_speed wrong_speed os_error
        stop_iteration zero_division :
      UsbError
  endpoint_error short_transfer get_status set_halt no_stall clear_halt_failed clear_after_reset
        halted_before halt_not_reported remained_halted :
      (endpoint : ℕ) → UsbError
  get_descriptor : (descriptor_type : ℕ) → UsbError
  content_mismatch : (offset : ℕ) → UsbError

-- Whether `except (OSError, RuntimeError, json.JSONDecodeError)` catches it.
abbrev pub is_caught : UsbError → Bool
is_caught stop_iteration = false
is_caught zero_division = false
is_caught _ = true

-- The environment's state and `self.handle`.
pub record UsbState (World : Type 0) : Type 0 where
  pub world : World
  pub handle : Option ℕ

-- A call returns, raises, or is cut off when the rounds allowed to a loop are over.
pub data Outcome (A : Type 0) : Type 0 where
  returned : A → Outcome A
  raised : UsbError → Outcome A
  cut_off : Outcome A

abbrev pub M : Type 0 → Type 0 → Type 0
M World A = UsbState World → Outcome A × UsbState World

abbrev pub then_do :
    {World A B : Type 0} → (A → M World B) → Outcome A × UsbState World → Outcome B × UsbState World
then_do next (returned a, s) = next a s
then_do next (raised e, s) = (raised e, s)
then_do next (cut_off, s) = (cut_off, s)

infixl 5 ◌>>=◌ ◌>>◌
abbrev pub ◌>>=◌ : {World A B : Type 0} → M World A → (A → M World B) → M World B
◌>>=◌ first next s = then_do next (first s)

abbrev pub ◌>>◌ : {World B : Type 0} → M World (Unit {0}) → M World B → M World B
first >> second = first >>= λ _. second

abbrev pub return : {World A : Type 0} → A → M World A
return a s = (returned a, s)

abbrev pub raise : {World A : Type 0} → UsbError → M World A
raise e s = (raised e, s)

-- `if not test: raise RuntimeError(reason)`
abbrev pub require : {World : Type 0} → Bool → UsbError → M World (Unit {0})
require true e s = (returned tt, s)
require false e s = (raised e, s)

-- A call of the environment.
abbrev pub call : {World A : Type 0} → (World → A × World) → M World A
call f s = let r = f s.world in (returned r.0, record s { world = r.1 })

abbrev pub run : {World : Type 0} → (World → World) → M World (Unit {0})
run f s = (returned tt, record s { world = f s.world })

-- `if not self.handle: raise RuntimeError("USB handle is closed")`
abbrev pub need_handle : {World : Type 0} → M World ℕ
need_handle s = elim s.handle [ none ↦ (raised handle_closed, s) | some h ↦ (returned h, s) ]

abbrev pub set_handle : {World : Type 0} → Option ℕ → M World (Unit {0})
set_handle h s = (returned tt, record s { handle = h })

abbrev pub device_out_window : ℕ
device_out_window = 2048

-- `bytes(size)`
abbrev pub zeros : ℕ → List ℕ
zeros zero = []
zeros (suc n) = 0 ∷ zeros n

-- `bytes(buffer[:count])`, for a count of at least 0.
abbrev pub as_count : ℤ → ℕ
as_count (pos n) = n
as_count (negsuc n) = 0

-- The first offset at which two texts of bytes differ.
unfoldable pub mismatch_at : List ℕ → List ℕ → ℕ → Option ℕ
mismatch_at [] bs i = none
mismatch_at (a ∷ as_rest) [] i = none
mismatch_at (a ∷ as_rest) (b ∷ bs) i =
    let later = mismatch_at as_rest bs (i + 1) in if a == b then later else some i

abbrev pub mismatch_error : Option ℕ → UsbError
mismatch_error none = stop_iteration
mismatch_error (some i) = content_mismatch i

module _ {World : Type 0} (env : Environment World) where
  open env use {
    open_device, claim_interface, release_interface, close_device, bulk_transfer, control_transfer,
    clear_halt, reset_device, monotonic, sleep,
  }

  unfoldable pub transfer : (handle endpoint : ℕ) → List ℕ → M World (List ℕ)
  transfer handle endpoint bytes = do
    bulk ←
        call (
          bulk_transfer handle endpoint
            (if endpoint == ep_out then bytes else zeros (length bytes)))
    require (eqb_ℤ bulk.code (pos 0)) (endpoint_error endpoint)
    require (eqb_ℤ bulk.transferred (pos (length bytes))) (short_transfer endpoint)
    return (take (as_count bulk.transferred) bulk.buffer)

  -- A packet of length zero ends a partial window on a packet boundary.
  unfoldable pub terminate_hs_out_transfer :
      (handle payload_size receive_window : ℕ) → M World (Unit {0})
  terminate_hs_out_transfer handle payload_size receive_window =
      if leb receive_window payload_size || not (payload_size % 512 == 0) then return tt else do
        bulk ← call (bulk_transfer handle ep_out [])
        require (eqb_ℤ bulk.code (pos 0)) zero_length_packet

  unfoldable pub close_handle : (release : Bool) → M World (Unit {0})
  close_handle release s = elim s.handle [
    | none ↦ (returned tt, s)
    | some h ↦ (
      returned tt,
      record {
        world = close_device h (if release then release_interface h s.world else s.world);
        handle = none;
      },
    )
  ]

  -- The loop until the deadline, for at most `rounds` turns.
  unfoldable pub open_until : (rounds deadline : ℕ) → M World (Unit {0})
  open_until zero deadline s = (cut_off, s)
  open_until (suc n) deadline s =
      let clock = monotonic s.world in
      let opened = open_device clock.1 in
      let again = λ (w : World). open_until n deadline (record s { world = sleep 100000000 w }) in
      elim (ltb clock.0 deadline) [
        | false ↦ (raised recovery_timeout, record s { world = clock.1 })
        | true ↦ elim opened.0 [
          | none ↦ again opened.1
          | some h ↦
              let claimed = claim_interface h opened.1 in
              elim (eqb_ℤ claimed.0 (pos 0)) [
                | true ↦ (returned tt, record { world = claimed.1; handle = some h })
                | false ↦ again (close_device h claimed.1)
              ]
        ]
      ]

  unfoldable pub open_with_retry : (rounds recovery_timeout : ℕ) → M World (Unit {0})
  unfolding open_until
  open_with_retry rounds timeout = do
    started ← call monotonic
    open_until rounds (started + timeout)

  unfoldable pub write : List ℕ → M World (Unit {0})
  unfolding transfer terminate_hs_out_transfer
  write payload = do
    handle ← need_handle
    sent ← transfer handle ep_out payload
    terminate_hs_out_transfer handle (length payload) device_out_window

  unfoldable pub read : (size : ℕ) → M World (List ℕ)
  unfolding transfer
  read size = do handle ← need_handle; transfer handle ep_in (zeros size)

  unfoldable pub echo : List ℕ → M World (Unit {0})
  unfolding write read mismatch_at
  echo payload = do
    write payload
    echoed ← read (length payload)
    require (text_eq echoed payload) (mismatch_error (mismatch_at payload echoed 0))

  unfoldable pub endpoint_halted : (endpoint : ℕ) → M World Bool
  endpoint_halted endpoint = do
    handle ← need_handle
    reply ← call (control_transfer handle 0x82 0 0 endpoint (zeros 2))
    require (eqb_ℤ reply.0 (pos 2)) (get_status endpoint)
    return (byte reply.1 0 % 2 == 1)

  unfoldable pub read_descriptor : (descriptor_type length : ℕ) → M World (List ℕ)
  read_descriptor descriptor_type length = do
    handle ← need_handle
    reply ← call (control_transfer handle 0x80 6 (descriptor_type * 256) 0 (zeros length))
    require (not (ltb_ℤ reply.0 (pos 0))) (get_descriptor descriptor_type)
    return (take (as_count reply.0) reply.1)

  unfoldable pub set_endpoint_halt : (endpoint : ℕ) → M World (Unit {0})
  set_endpoint_halt endpoint = do
    handle ← need_handle
    reply ← call (control_transfer handle 0x02 3 0 endpoint [])
    require (eqb_ℤ reply.0 (pos 0)) (set_halt endpoint)

  -- The result and the count of the transfer that the endpoint stalled; -9 is LIBUSB_ERROR_PIPE.
  unfoldable pub expect_endpoint_stall : (endpoint : ℕ) → M World (ℤ × ℤ)
  expect_endpoint_stall endpoint = do
    handle ← need_handle
    bulk ← call (bulk_transfer handle endpoint ((if endpoint == ep_out then 0xA5 else 0) ∷ []))
    require (eqb_ℤ bulk.code (negsuc 8)) (no_stall endpoint)
    return (bulk.code, bulk.transferred)

  unfoldable pub clear_endpoint_halt : (endpoint : ℕ) → M World (Unit {0})
  clear_endpoint_halt endpoint = do
    handle ← need_handle
    code ← call (clear_halt handle endpoint)
    require (eqb_ℤ code (pos 0)) (clear_halt_failed endpoint)

  -- The loop of `reset_and_reopen` over the endpoints.
  unfoldable pub clear_both : List ℕ → M World (Unit {0})
  clear_both [] = return tt
  clear_both (endpoint ∷ rest) = do
    handle ← need_handle
    code ← call (clear_halt handle endpoint)
    require (eqb_ℤ code (pos 0)) (clear_after_reset endpoint)
    clear_both rest

  -- The time that the device took to come back.
  unfoldable pub reset_and_reopen : (rounds recovery_timeout : ℕ) → M World ℕ
  unfolding close_handle open_with_retry clear_both
  reset_and_reopen rounds timeout = do
    handle ← need_handle
    started ← call monotonic
    code ← call (reset_device handle)
    close_handle false
    require (eqb_ℤ code (pos 0)) reset
    open_with_retry rounds timeout
    clear_both (ep_out ∷ ep_in ∷ [])
    ended ← call monotonic
    return (ended - started)

  -- `with UsbSession(...) as session:` round a body: what the body gives, after the exit.
  unfoldable pub leave : {A : Type 0} → Outcome A × UsbState World → Outcome A × UsbState World
  unfolding close_handle
  leave (result, s) =
      let closed = close_handle true s in
      (result, record closed.1 { world = env.exit closed.1.world })

  unfoldable pub with_session : {A : Type 0} → (rounds recovery_timeout : ℕ) → M World A → M World A
  unfolding open_with_retry leave
  with_session rounds timeout body = do
    set_handle none
    code ← call env.init
    require (eqb_ℤ code (pos 0)) libusb_init
    open_with_retry rounds timeout
    λ s. leave (body s)
