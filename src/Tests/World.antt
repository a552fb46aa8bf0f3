-- ===== src/Tests/World.antt =====
-- A machine to run sessions on: a stream in memory, a transcript, and a virtual device that records.
use zerowire.Prelude.{refl, List, [], ◌∷◌, ◌++◌, String, ok}
use zerowire.Bytes.{Bytes}
use zerowire.Io.{Io}
use zerowire.Uinput.{InputEvent, UinputDevice, DeviceProfile}
use zerowire.Transcript.{Transcript}
use zerowire.Transcript.Laws.{Beside}
use zerowire.LinuxSender.{Reading, Hidraw}
use zerowire.LinuxSender.Forward.{Tape, first, behind}
use zerowire.Receiver.Desk.{Desk}
use zerowire.Wire.{Stream}
use zerowire.Wire.Laws.{Transport, CanWrite}
use zerowire.Wire.Settles.{Settles}
use zerowire.Duplex.{Duplex, duplex, duplex-Transport, duplex-CanWrite}

pub record World : Type 0 where
  pub link : Duplex
  pub lines : List String
  pub profiles : List DeviceProfile
  pub events : List InputEvent
  pub file : List Reading

abbrev pub world : Stream World
world = record {
  read_exact =
      λ n w. ((duplex.read_exact n w.link).0, record w { link = (duplex.read_exact n w.link).1 });
  write_all =
      λ bs w. ((duplex.write_all bs w.link).0, record w { link = (duplex.write_all bs w.link).1 });
}

unfoldable pub world-Transport : Transport world
unfolding duplex-Transport
world-Transport = record {
  incoming = λ w. w.link.r;
  outgoing = λ w. w.link.w;
  read_ok = λ n w h. duplex-Transport.read_ok n w.link h;
  read_rest = λ n w h. duplex-Transport.read_rest n w.link h;
  read_short = λ n w h. duplex-Transport.read_short n w.link h;
  read_keeps = λ n w. duplex-Transport.read_keeps n w.link;
  write_appends = λ bs w h. duplex-Transport.write_appends bs w.link h;
  write_fails = λ bs w. duplex-Transport.write_fails bs w.link;
  write_keeps = λ bs w. duplex-Transport.write_keeps bs w.link;
}

pub world-CanWrite : CanWrite world
world-CanWrite bs w = duplex-CanWrite bs w.link

abbrev pub transcript : Transcript World
transcript = record {
  open_append = λ w. (ok tt, w);
  write_line = λ l w. (ok tt, record w { lines = w.lines ++ (l ∷ []) });
}

unfoldable pub transcript-Beside : Beside world-Transport transcript
unfolding world-Transport
transcript-Beside = record {
  lines = λ w. w.lines;
  opens = λ w. (refl, refl, refl);
  writes = λ l w. (refl, refl, refl);
  open_lines = λ w. refl;
  write_lines = λ l w. refl;
  read_lines = λ n w. refl;
}

abbrev pub uinput : UinputDevice World
uinput = record { write_event = λ e w. (ok tt, record w { events = w.events ++ (e ∷ []) }) }

abbrev pub create_device : DeviceProfile → Io World (Unit {0})
create_device p w = (ok tt, record w { profiles = w.profiles ++ (p ∷ []) })

pub write_event-Settles : (e : InputEvent) → Settles world-Transport (uinput.write_event e)
unfolding world-Transport
write_event-Settles e = record { fuel = λ w h. cc; keeps = λ w. refl }

pub create_device-Settles : (p : DeviceProfile) → Settles world-Transport (create_device p)
unfolding world-Transport
create_device-Settles p = record { fuel = λ w h. cc; keeps = λ w. refl }

unfoldable pub desk : Desk world-Transport uinput create_device
unfolding world-Transport
desk = record {
  recorder = record { events = λ w. w.events; takes = λ e w. refl; appends = λ e w. refl };
  profiles = λ w. w.profiles;
  creates = λ p w. refl;
  create_adds = λ p w. refl;
  create_events = λ p. record { same = λ w. refl };
  create_settles = create_device-Settles;
  create_outgoing = λ p. record { same = λ w. refl };
  write_outgoing = λ e. record { same = λ w. refl };
  write_profiles = λ e. record { same = λ w. refl };
  write_settles = write_event-Settles;
  read_profiles = λ n. record { same = λ w. refl };
  read_events = λ n. record { same = λ w. refl };
  send_profiles = λ bs. record { same = λ w. refl };
  send_events = λ bs. record { same = λ w. refl };
}

-- A file of the device, that any path opens.
abbrev pub hidraw : List Reading → Hidraw World
hidraw content = record {
  open_nonblocking = λ path w. (ok tt, record w { file = content });
  read = λ w. (ok (first w.file), record w { file = behind w.file });
}

unfoldable pub tape : (content : List Reading) → Tape world-Transport (hidraw content)
unfolding world-Transport
tape content = record {
  content = λ path. content;
  left = λ w. w.file;
  opens = λ path w. refl;
  opened = λ path w. refl;
  open_keeps = λ path w. (refl, refl);
  reads = λ w. refl;
  advances = λ w. refl;
  read_keeps = λ w. (refl, refl);
  write_left = λ bs w. refl;
}

-- A stream with the given bytes to come, and nothing written anywhere.
abbrev pub with_input : Bytes → World
with_input bs = record {
  link = record { r = bs; w = [] };
  lines = [];
  profiles = [];
  events = [];
  file = [];
}
