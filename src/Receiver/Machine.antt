-- ===== src/Receiver/Machine.antt =====
-- What the sender says in a session of the HID receiver, and a machine that answers it.
use zerowire.Prelude.{◌+◌, ◌%◌, ◌^◌, Bool, true, false, List, [], ◌∷◌, ◌++◌, Result, ok, err}
use zerowire.Bytes.{Bytes}
use zerowire.Json.{Json}
use zerowire.Envelope.{Channel, Envelope, control, usbip, hid, keepalive}
use zerowire.Hid
use zerowire.Hid.{
  HidFrame, HidOp, HidError, BindAckMeta, bind, bind_ack, report_in, report_out, report_feature,
  unbind, parse_bind_ack_body,
}
use zerowire.Io.{Failure, hid_frame}
use zerowire.Uinput.{InputEvent, DeviceProfile}
use zerowire.Reports.Whole.{report_events, after_report}
use zerowire.Receiver.{Session, Round, go_on, leave, profile_of}

-- What an envelope says to the receiver.
pub data Said : Type 0 where
  acknowledged : BindAckMeta → Said
  report : HidFrame → Said
  unbound : Said
  refused : HidError → Said
  nothing : Said

abbrev pub said_ack : Result HidError (BindAckMeta × Bytes) → Said
said_ack (ok m) = acknowledged m.0
said_ack (err e) = refused e

abbrev pub said_op : Json BindAckMeta → HidFrame → HidOp → Said
said_op json f bind_ack = said_ack (parse_bind_ack_body json f.body)
said_op json f report_in = report f
said_op json f unbind = unbound
said_op json f bind = nothing
said_op json f report_out = nothing
said_op json f report_feature = nothing

abbrev pub said_frame : Json BindAckMeta → Result HidError HidFrame → Said
said_frame json (ok f) = said_op json f f.op
said_frame json (err e) = refused e

abbrev pub said : Json BindAckMeta → Channel → Bytes → Said
said json hid payload = said_frame json (Hid.parse payload)
said json control payload = nothing
said json usbip payload = nothing
said json keepalive payload = nothing

abbrev pub say : Json BindAckMeta → Envelope → Said
say json env = said json env.channel env.payload

-- The answer to what is said: how the session goes on, the devices created, and the events.
abbrev pub Answer : Type 0 → Type 0
Answer A = Result Failure A × List DeviceProfile × List InputEvent

abbrev pub opened : Session → Result Failure DeviceProfile → Answer Round
opened session (ok p) = (ok (go_on (record session { bound = true })), p ∷ [], [])
opened session (err e) = (err e, [], [])

abbrev pub reported : Session → HidFrame → Bool → Answer Round
reported session f true = (
  ok (
      go_on (record session {
        last_seq = f.seq;
        reports_seen = (session.reports_seen + 1) % 2 ^ 64;
        statics = after_report session.statics f.body;
      })),
  [],
  report_events session.statics f.body,
)
reported session f false = (ok (go_on (record session { last_seq = f.seq })), [], [])

-- A device is created for each acknowledgement whose kind is known, a report is only heeded once
-- there is one, and the sender ends the session by unbinding or by a frame that cannot be read.
abbrev pub respond : Session → Said → Answer Round
respond session (acknowledged meta) = opened session (profile_of meta meta.kind)
respond session (report f) = reported session f session.bound
respond session unbound = (ok (leave session), [], [])
respond session (refused e) = (err (hid_frame e), [], [])
respond session nothing = (ok (go_on session), [], [])

abbrev pub then_on : Answer Round → (Session → Answer Session) → Answer Session
then_on (err e, ps, es) next = (err e, ps, es)
then_on (ok (leave session), ps, es) next = (ok session, ps, es)
then_on (ok (go_on session), ps, es) next =
    let (r, ps', es') = next session in (r, ps ++ ps', es ++ es')

-- The machine over a whole session.
abbrev pub course : Session → List Said → Answer Session
course session [] = (ok session, [], [])
course session (h ∷ hs) = then_on (respond session h) (λ session'. course session' hs)
