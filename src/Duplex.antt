-- ===== src/Duplex.antt =====
-- The in-memory stream of the tests of desktop-linux/src/urb_pump.rs, a cursor to read from and a
-- vector to write to. It is a stream that keeps every promise of `Transport`.
use zerowire.Prelude.{
  ℕ, ◌≡◌, inl, refl, arith, ltb, lt→ltb, le→ltb_false, if◌then◌else◌, [], ◌++◌, length, take, drop,
  ok, err,
}
use zerowire.Bytes.{Bytes}
use zerowire.Io.{Io, io}
use zerowire.Wire.{Stream}
use zerowire.Wire.Laws.{Transport, CanWrite}

pub record Duplex : Type 0 where
  pub r : Bytes
  pub w : Bytes

-- At the end of the input `read_exact` fails, and what was left is gone.
unfoldable pub read_exact : ℕ → Io Duplex Bytes
read_exact n d =
    if ltb (length d.r) n
    then (err io, record d { r = [] })
    else (ok (take n d.r), record d { r = drop n d.r })

unfoldable pub write_all : Bytes → Io Duplex (Unit {0})
write_all bs d = (ok tt, record d { w = d.w ++ bs })

abbrev pub duplex : Stream Duplex
duplex = record { read_exact = read_exact; write_all = write_all }

pub read_exact-w : (n : ℕ) (d : Duplex) → (read_exact n d).1.w ≡ d.w
unfolding read_exact
read_exact-w n d = ground arith

unfoldable pub duplex-Transport : Transport duplex
unfolding read_exact write_all
duplex-Transport = record {
  incoming = λ d. d.r;
  outgoing = λ d. d.w;
  read_ok = λ n d h. rw (le→ltb_false (length d.r) n h);
  read_rest = λ n d h. rw (le→ltb_false (length d.r) n h);
  read_short = λ n d h. rw (lt→ltb (length d.r) n h);
  read_keeps = read_exact-w;
  write_appends = λ bs d h. refl;
  write_fails = λ bs d. inl refl;
  write_keeps = λ bs d. refl;
}

pub duplex-CanWrite : CanWrite duplex
unfolding write_all
duplex-CanWrite bs d = refl
