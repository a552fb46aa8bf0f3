-- ===== src/Transcript/Laws.antt =====
-- A transcript that can be opened and written, kept beside the stream.
use zerowire.Prelude.{
  ℕ, ◌≡◌, refl, sym, ◌∙◌, ap, append-nil, append_assoc, Option, none, some, List, [], ◌∷◌, ◌++◌,
  String, ◌%◌,
}
use zerowire.Control.{UsbipAttachInfo}
use zerowire.Io.{Io, pure, attempt, ◌>>=◌, ◌>>◌}
use zerowire.Wire.{Stream, recv_envelope}
use zerowire.Wire.Laws.{Transport, Runs}
use zerowire.Wire.Steady.{recv_envelope-Steady}
use zerowire.Transcript.{
  Transcript, SimulatedAttach, describe, sim_attach_line, sim_descriptor_line, sim_urb_line,
  sim_detach_line, create, record_urb, drop_attach,
}

module _ {S : Type 0} {st : Stream S} (t : Transport st) (log : Transcript S) where
  -- The documented behaviour of a file that is opened to append, over the lines that it has.
  pub record Beside : Type 0 where
    pub lines : S → List String
    pub opens : (s : S) → Runs t log.open_append s tt (t.incoming s) (t.outgoing s)
    pub writes : (l : String) (s : S) → Runs t (log.write_line l) s tt (t.incoming s) (t.outgoing s)
    pub open_lines : (s : S) → lines (log.open_append s).1 ≡ lines s
    pub write_lines : (l : String) (s : S) → lines (log.write_line l s).1 ≡ lines s ++ (l ∷ [])
    pub read_lines : (n : ℕ) (s : S) → lines (st.read_exact n s).1 ≡ lines s

  module _ (beside : Beside) where
    -- `m` returns `a`, moves no byte of the stream, and adds the lines `ls`.
    pub record Logs {A : Type 0} (m : Io S A) (s : S) (a : A) (ls : List String) : Type 0 where
      pub runs : Runs t m s a (t.incoming s) (t.outgoing s)
      pub adds : beside.lines (m s).1 ≡ beside.lines s ++ ls

    Logs-then :
        {A B : Type 0} (m : Io S A) (f : A → Io S B) {s : S} {a : A} {b : B} {ls ls' : List String}
        → Logs m s a ls
        → Logs (f a) (m s).1 b ls'
        → Logs (m >>= f) s b (ls ++ ls')
    Logs-then m f {s} {a} {b} {ls} {ls'} h k = record {
      runs = rw h.runs.0 (k.runs.0, k.runs.1 ∙ h.runs.1, k.runs.2 ∙ h.runs.2);
      adds = rw h.runs.0 (
          k.adds
          ∙ ap (λ (z : List String). z ++ ls') h.adds
          ∙ append_assoc (beside.lines s) ls ls');
    }

    Logs-next :
        {A B : Type 0} (m : Io S A) (k : Io S B) {s : S} {a : A} {b : B} {ls ls' : List String}
        → Logs m s a ls
        → Logs k (m s).1 b ls'
        → Logs (m >> k) s b (ls ++ ls')
    Logs-next m k = Logs-then m (λ _. k)

    Logs-pure : {A : Type 0} (a : A) (s : S) → Logs (pure a) s a []
    Logs-pure a s = record { runs = (refl, refl, refl); adds = sym (append-nil (beside.lines s)) }

    -- What is only tried is as good as done.
    Logs-tried :
        {A B : Type 0} (m : Io S A) (k : Io S B) {s : S} {a : A} {b : B} {ls ls' : List String}
        → Logs m s a ls
        → Logs k (m s).1 b ls'
        → Logs (attempt m >> k) s b (ls ++ ls')
    Logs-tried m k {s} {a} {ls = ls} h l =
        let tried : Logs (attempt m) s (some a) ls = record {
          runs = rw h.runs.0 (refl, h.runs.1, h.runs.2);
          adds = h.adds;
        } in
        Logs-next (attempt m) k tried l

    Logs-return :
        {A B : Type 0} (m : Io S A) (b : B) {s : S} {a : A} {ls : List String}
        → Logs m s a ls
        → Logs (m >> pure b) s b ls
    Logs-return m b h = record {
      runs = rw h.runs.0 (refl, h.runs.1, h.runs.2);
      adds = rw h.runs.0 h.adds;
    }

    opened : (s : S) → Logs log.open_append s tt []
    opened s = record {
      runs = beside.opens s;
      adds = beside.open_lines s ∙ sym (append-nil (beside.lines s));
    }

    wrote : (l : String) (s : S) → Logs (log.write_line l) s tt (l ∷ [])
    wrote l s = record { runs = beside.writes l s; adds = beside.write_lines l s }

    -- What is said of an attach when it is created.
    abbrev descriptor_lines : UsbipAttachInfo → Option String → List String
    descriptor_lines info none = []
    descriptor_lines info (some d) = sim_descriptor_line info d ∷ []

    abbrev pub attach_lines : UsbipAttachInfo → List String
    attach_lines info =
        sim_attach_line (info.import_id % 256) info ∷ descriptor_lines info info.descriptor_hex

    abbrev pub simulated : UsbipAttachInfo → SimulatedAttach
    simulated info = record { port = info.import_id % 256; busid = info.busid }

    describe-Logs :
        (info : UsbipAttachInfo) (d : Option String) (s : S)
        → Logs (describe log info d) s tt (descriptor_lines info d)
    describe-Logs info none s = Logs-pure tt s
    describe-Logs info (some d) s =
        Logs-tried _ _ (wrote (sim_descriptor_line info d) s) (Logs-pure tt _)

    pub create-Logs :
        (info : UsbipAttachInfo) (s : S)
        → Logs (create log info) s (simulated info) (attach_lines info)
    unfolding create
    create-Logs info s = Logs-next _ _ (opened s) (
        Logs-tried _ _ (wrote (sim_attach_line (info.import_id % 256) info) _)
          (Logs-return _ (simulated info) (describe-Logs info info.descriptor_hex _)))

    pub record_urb-Logs :
        (sim : SimulatedAttach) (import_id seq bytes : ℕ) (s : S)
        → Logs
            (record_urb log sim import_id seq bytes)
            s
            tt
            (sim_urb_line sim import_id seq bytes ∷ [])
    unfolding record_urb
    record_urb-Logs sim import_id seq bytes s =
        Logs-next _ _ (opened s)
          (Logs-tried _ _ (wrote (sim_urb_line sim import_id seq bytes) _) (Logs-pure tt _))

    pub drop_attach-Logs :
        (sim : SimulatedAttach) (s : S) → Logs (drop_attach log sim) s tt (sim_detach_line sim ∷ [])
    unfolding drop_attach
    drop_attach-Logs sim s =
        Logs-tried _ _ (Logs-next _ _ (opened s) (wrote (sim_detach_line sim) _)) (Logs-pure tt _)

    -- An envelope is received without a word in the transcript.
    pub recv_envelope-lines : (s : S) → beside.lines (recv_envelope st s).1 ≡ beside.lines s
    recv_envelope-lines =
        (recv_envelope-Steady beside.lines st (λ n. record { same = beside.read_lines n })).same
