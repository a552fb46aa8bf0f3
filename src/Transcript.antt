-- ===== src/Transcript.antt =====
-- desktop-linux/src/usbip.rs: the simulated attach, which writes to a transcript what an attach to
-- `vhci-hcd` would be told. The file is a parameter.
pub mod Laws
use zerowire.Prelude.{
  ℕ, zero, suc, ◌+◌, ◌*◌, ◌-◌, ◌/◌, ◌%◌, ◌^◌, Bool, true, false, not, ◌&&◌, ◌||◌, Option, none,
  some, List, [], ◌∷◌, map, String, str_append, ltb, leb, ◌==◌, if◌then◌else◌, Result, ok_or,
}
use Prim.Native.String.{len}
use zerowire.Bytes.{Bytes}
use zerowire.Control.{UsbipAttachInfo}
use zerowire.Text.{decimal, hexadecimal, hex4, joined}
use zerowire.Io.{Io, Failure, no_free_port, pure, lift, attempt, continue, ◌>>=◌, ◌>>◌}

-- The transcript: it is opened to append, and then a line is written to it.
pub record Transcript (S : Type 0) : Type 0 where
  pub open_append : Io S (Unit {0})
  pub write_line : String → Io S (Unit {0})

pub record SimulatedAttach : Type 0 where
  pub port : ℕ
  pub busid : String

unfoldable pub sim_attach_line : ℕ → UsbipAttachInfo → String
unfolding joined
sim_attach_line port info = joined (
    "sim-attach port="
    ∷ decimal port
    ∷ " busid="
    ∷ info.busid
    ∷ " import_id="
    ∷ decimal info.import_id
    ∷ " devid="
    ∷ hexadecimal info.devid
    ∷ " speed="
    ∷ decimal info.speed
    ∷ " vid="
    ∷ hex4 info.vendor_id
    ∷ " pid="
    ∷ hex4 info.product_id
    ∷ [])

-- `len` counts the bytes of the text, as `str::len` does.
unfoldable pub sim_descriptor_line : UsbipAttachInfo → String → String
unfolding joined
sim_descriptor_line info d =
    joined ("sim-descriptor " ∷ info.busid ∷ " bytes=" ∷ decimal (len d / 2) ∷ [])

unfoldable pub sim_urb_line : SimulatedAttach → ℕ → ℕ → ℕ → String
unfolding joined
sim_urb_line sim import_id seq bytes = joined (
    "sim-urb port="
    ∷ decimal sim.port
    ∷ " import_id="
    ∷ decimal import_id
    ∷ " seq="
    ∷ decimal seq
    ∷ " bytes="
    ∷ decimal bytes
    ∷ [])

unfoldable pub sim_detach_line : SimulatedAttach → String
unfolding joined
sim_detach_line sim = joined ("sim-detach port=" ∷ decimal sim.port ∷ " busid=" ∷ sim.busid ∷ [])

module _ {S : Type 0} (log : Transcript S) where
  abbrev pub describe : UsbipAttachInfo → Option String → Io S (Unit {0})
  describe info none = pure tt
  describe info (some d) = attempt (log.write_line (sim_descriptor_line info d)) >> pure tt

  unfoldable pub create : UsbipAttachInfo → Io S SimulatedAttach
  create info = do
    log.open_append
    attempt (log.write_line (sim_attach_line (info.import_id % 256) info))
    describe info info.descriptor_hex
    pure (record { port = info.import_id % 256; busid = info.busid })

  unfoldable pub record_urb : SimulatedAttach → ℕ → ℕ → ℕ → Io S (Unit {0})
  record_urb sim import_id seq bytes = do
    log.open_append
    attempt (log.write_line (sim_urb_line sim import_id seq bytes))
    pure tt

  -- `Drop`: whatever fails here is passed over.
  unfoldable pub drop_attach : SimulatedAttach → Io S (Unit {0})
  drop_attach sim = do attempt (log.open_append >> log.write_line (sim_detach_line sim)); pure tt
