-- ===== src/Io.antt =====
-- Code that talks to a peer: an action takes the state of the stream, and gives back a result and the
-- state that it leaves, also when it fails. `Failure` has a case for each way in which the functions
-- of desktop-linux/src fail; the texts of `anyhow` are left out.
use zerowire.Prelude.{ℕ, ℤ, Option, Result, ok, err, to_option, String}
use zerowire.Envelope.{Channel, EnvelopeError}
use zerowire.Usbip.{UrbError, UrbOp}
use zerowire.Usbip.Frame.{UsbipError}
use zerowire.Hid.{HidError}
use zerowire.Control.{ControlMessage}

pub data Failure : Type 0 where
  io : Failure
  envelope : EnvelopeError → Failure
  incomplete : Failure
  wrong_channel : Channel → Failure
  bad_json : Failure
  usbip_frame : UsbipError → Failure
  urb : UrbError → Failure
  hid_frame : HidError → Failure
  wrong_import_id : ℕ → ℕ → Failure
  urb_too_short : ℕ → Failure
  unknown_urb_op : Failure
  out_truncated : ℕ → ℕ → Failure
  unexpected_op : UrbOp → Failure
  urb_failed : ℕ → Failure
  body_mismatch : ℕ → ℕ → Failure
  unlink_failed : ℤ → Failure
  unexpected_message : ControlMessage → Failure
  sender_error : String → String → Failure
  attach_refused : String → String → Failure
  no_such_device : Failure
  unsupported_kind : Failure
  busid_not_offered : String → Failure
  mode_not_offered : String → Failure
  unexpected_hid_op : Failure
  no_vhci : Failure
  no_free_port : Failure
  -- a slice index out of range, on which the process panics
  panic : Failure
  -- the model's own: a loop was given too few rounds
  out_of_fuel : Failure

abbrev pub Io : Type 0 → Type 0 → Type 0
Io S A = S → Result Failure A × S

module _ {S A : Type 0} where
  abbrev pub pure : A → Io S A
  pure a s = (ok a, s)

  abbrev pub raise : Failure → Io S A
  raise e s = (err e, s)

  abbrev pub lift : Result Failure A → Io S A
  lift r s = (r, s)

  -- `match m { Ok(a) => …, Err(_) => … }`
  abbrev pub attempt : Io S A → Io S (Option A)
  attempt m s = (ok (to_option (m s).0), (m s).1)

module _ {S A B : Type 0} where
  abbrev pub continue : Result Failure A → S → (A → Io S B) → Result Failure B × S
  continue (ok a) s f = f a s
  continue (err e) s f = (err e, s)

  infixl 5 ◌>>=◌ ◌>>◌
  abbrev pub ◌>>=◌ : Io S A → (A → Io S B) → Io S B
  ◌>>=◌ m f s = continue (m s).0 (m s).1 f

  abbrev pub ◌>>◌ : Io S A → Io S B → Io S B
  m >> k = m >>= λ _. k
