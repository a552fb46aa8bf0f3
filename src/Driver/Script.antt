-- ===== src/Driver/Script.antt =====
-- The default script, run against the pump with the fake mass storage.
use zerowire.Prelude.{
  ℕ, zero, suc, ◌+◌, ◌*◌, ◌^◌, ◌<◌, ◌≤◌, ◌≡◌, refl, sym, ap, ◌∙◌, arith, List, [], ◌∷◌, ◌++◌,
  length, ok, All, append-nil,
}
use zerowire.Bytes.{Bytes, IsU32, u16_from_le, u16_to_le}
use zerowire.Device
use zerowire.Device.{
  FakeDevice, mass_storage, dispatch_submit, endpoint_address, execute_control, execute_bulk,
  bulk_pattern,
}
use zerowire.Device.Replies.{length-bulk_pattern}
use zerowire.Wire.{Stream}
use zerowire.Wire.Laws.{Transport, CanWrite}
use zerowire.Pump.{no_stats, run_pump}
use zerowire.Pump.Request.{requests_bytes, answers_bytes, counted_all}
use zerowire.Pump.Serve.{run_pump_answers}
use zerowire.Driver.{
  ScriptedUrb, DriverStats, no_urbs, reads, no_setup, count_reply, range, extra_bulk_in,
  script_default, run_script,
}
use zerowire.Driver.Exchange.{IsExpected}
use zerowire.Driver.Loopback.{
  script_requests, count_script, run_script_answered, script_requests-IsServable,
}

module _ (import_id vendor product : ℕ) where
  abbrev storage : FakeDevice
  storage = mass_storage vendor product

  pub bulk_in-IsExpected :
      (k n : ℕ) → IsU32 k → n ≤ 64 → IsExpected import_id storage (reads k 1 no_setup n)
  unfolding mass_storage dispatch_submit endpoint_address execute_bulk Device.endpoint
      Device.find_address Device.is_in
  bulk_in-IsExpected k n h small =
      let size : length (bulk_pattern n k) ≡ n = length-bulk_pattern n k in
      (
        (omega arith, λ e. absurd (omega arith), omega arith, omega arith),
        refl,
        omega arith,
        λ e. omega arith,
      )

  extra_bulk_in-IsExpected :
      (k n : ℕ) → k + n ≤ 2 ^ 32 → All (IsExpected import_id storage) (extra_bulk_in k n)
  unfolding extra_bulk_in
  extra_bulk_in-IsExpected k zero h = tt
  extra_bulk_in-IsExpected k (suc n) h = (
    bulk_in-IsExpected k 64 (omega arith) (omega arith),
    extra_bulk_in-IsExpected (k + 1) n (omega arith),
  )

  pub script_default-IsExpected :
      (n : ℕ) → 100 + n ≤ 2 ^ 32 → All (IsExpected import_id storage) (script_default n)
  unfolding script_default mass_storage dispatch_submit endpoint_address execute_control
      execute_bulk Device.endpoint Device.find_address Device.is_in u16_from_le u16_to_le
      Device.synth_device_descriptor Device.synth_config_descriptor range
  script_default-IsExpected n h = (
    ((omega arith, λ e. absurd (omega arith), omega arith, omega arith), refl, refl, λ e. refl),
    (
      ((omega arith, λ e. absurd (omega arith), omega arith, omega arith), refl, refl, λ e. refl),
      (
        ((omega arith, λ e. absurd (omega arith), omega arith, omega arith), refl, refl, λ e. refl),
        (
          (
            (omega arith, λ e. refl, omega arith, omega arith),
            refl,
            refl,
            λ e. absurd (omega arith),
          ),
          (
            bulk_in-IsExpected 5 64 (omega arith) (omega arith),
            (
              (
                (omega arith, λ e. refl, omega arith, omega arith),
                refl,
                refl,
                λ e. absurd (omega arith),
              ),
              (
                bulk_in-IsExpected 7 32 (omega arith) (omega arith),
                extra_bulk_in-IsExpected 100 n h,
              ),
            ),
          ),
        ),
      ),
    ),
  )

-- The counters of `n` good reads of 64 bytes, and the unlink.
count_extra :
    (k n : ℕ) (stats : DriverStats)
    → stats.urbs_issued + n < 2 ^ 32
    → stats.urbs_ok + n < 2 ^ 32
    → stats.unlinks_issued < 2 ^ 31
    → stats.unlinks_ok < 2 ^ 31
    → stats.bytes_returned + 64 * n < 2 ^ 64
    → count_script (extra_bulk_in k n) stats ≡ record {
      urbs_issued = stats.urbs_issued + n;
      urbs_ok = stats.urbs_ok + n;
      unlinks_issued = stats.unlinks_issued + 1;
      unlinks_ok = stats.unlinks_ok + 1;
      bytes_returned = stats.bytes_returned + 64 * n;
    }
unfolding extra_bulk_in
count_extra k zero stats a b c d e = ground arith
count_extra k (suc n) stats a b c d e =
    let next : DriverStats = count_reply (reads k 1 no_setup 64) 64 stats in
    let a' : next.urbs_issued + n < 2 ^ 32 = omega arith in
    let b' : next.urbs_ok + n < 2 ^ 32 = omega arith in
    let e' : next.bytes_returned + 64 * n < 2 ^ 64 = omega arith in
    count_extra (k + 1) n next a' b' c d e' ∙ ground arith

length-script_requests : (us : List ScriptedUrb) → length (script_requests us) ≡ length us + 1
length-script_requests [] = refl
length-script_requests (u ∷ us) = omega (arith, length-script_requests us)

length-extra_bulk_in : (k n : ℕ) → length (extra_bulk_in k n) ≡ n
unfolding extra_bulk_in
length-extra_bulk_in k zero = refl
length-extra_bulk_in k (suc n) = omega (arith, length-extra_bulk_in (k + 1) n)

pub count_script-script_default :
    (n : ℕ)
    → 100 + n ≤ 2 ^ 32
    → count_script (script_default n) no_urbs ≡ record {
      urbs_issued = 7 + n;
      urbs_ok = 7 + n;
      unlinks_issued = 1;
      unlinks_ok = 1;
      bytes_returned = 155 + 64 * n;
    }
unfolding script_default
count_script-script_default n h =
    count_extra 100 n
      (record {
        urbs_issued = 7;
        urbs_ok = 7;
        unlinks_issued = 0;
        unlinks_ok = 0;
        bytes_returned = 155;
      })
      (omega arith) (omega arith) (omega arith) (omega arith) (omega arith)

pub length-script_default : (n : ℕ) → length (script_requests (script_default n)) ≡ 8 + n
unfolding script_default
length-script_default n =
    omega (arith, length-script_requests (script_default n), length-extra_bulk_in 100 n)

-- The driver and the pump, each over a stream with what the other one writes to come: with the fake
-- mass storage, an import id of 32 bits and `n` extra reads (100 + n at most 2^32), streams that take
-- every write, and fuel for the pump, the driver counts all 7 + n URBs and the unlink as good and
-- 155 + 64 n bytes returned, the pump ends without an error, and the driver has written what the pump
-- has read, and read everything that the pump has written.
pub simulated_session :
    {D P : Type 0} {driver : Stream D} {pump : Stream P} (t : Transport driver)
    (t' : Transport pump)
    → CanWrite driver
    → CanWrite pump
    → (import_id vendor product n fuel : ℕ) (d : D) (p : P) → IsU32 import_id
    → 100 + n ≤ 2 ^ 32
    → 8 + n < fuel
    → t.outgoing d ≡ []
    → t'.outgoing p ≡ []
    → t'.incoming p
      ≡ requests_bytes import_id (mass_storage vendor product) (script_requests (script_default n))
    → t.incoming d ≡ t'.outgoing (run_pump pump import_id (mass_storage vendor product) fuel p).1
    → ((run_script driver import_id (script_default n) d).0
        ≡ ok (record {
          urbs_issued = 7 + n;
          urbs_ok = 7 + n;
          unlinks_issued = 1;
          unlinks_ok = 1;
          bytes_returned = 155 + 64 * n;
        }))
      × ((run_pump pump import_id (mass_storage vendor product) fuel p).0
          ≡ ok (
              counted_all import_id
                (mass_storage vendor product)
                no_stats
                (script_requests (script_default n))))
      × (t.outgoing (run_script driver import_id (script_default n) d).1 ≡ t'.incoming p)
      × (t.incoming (run_script driver import_id (script_default n) d).1 ≡ [])
simulated_session t t' d_writes p_writes import_id vendor product n fuel d p id_fits few enough
      d_new p_new asked replied =
    let device : FakeDevice = mass_storage vendor product in
    let us : List ScriptedUrb = script_default n in
    let expected = script_default-IsExpected import_id vendor product n few in
    let (served, wrote) =
      run_pump_answers t' p_writes import_id id_fits device (script_requests us) [] fuel p
        (script_requests-IsServable import_id device us expected) (omega arith)
        (omega (arith, length-script_default n)) (asked ∙ sym (append-nil _)) in
    let (went, left, sent) =
      run_script_answered t d_writes import_id id_fits device us [] d expected (
        replied
        ∙ wrote
        ∙ ap (λ (z : Bytes). z ++ answers_bytes import_id device (script_requests us)) p_new
        ∙ sym (append-nil _)) in
    (
      went ∙ ap ok (count_script-script_default n few),
      served,
      sent
          ∙ ap (λ (z : Bytes). z ++ requests_bytes import_id device (script_requests us)) d_new
          ∙ sym asked,
      left,
    )
