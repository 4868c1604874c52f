-- ===== src/Syslog/Framing/Examples.antt =====
-- The theorems about framing, for two frames of five and eleven bytes, and for bytes that are no frame.
use netlog_ai.Prelude.{◌≡◌, refl, true, false, [], ◌∷◌, arith, map}
use netlog_ai.Syslog.Framing.{Bytes, Limits, value, read_all}
use netlog_ai.Syslog.Framing.Ends.{read_all-closed}
use netlog_ai.Syslog.Framing.RoundTrip.{
  Counted, IsCounted, message, encode_all, read_all-encode_all,
}

abbrev limits : Limits
limits = record { max_frame = 8192; overruns = λ s. false }

-- "12 <1" is neither a frame nor a line
abbrev stray : Bytes
stray = 49 ∷ 50 ∷ 32 ∷ 60 ∷ 49 ∷ []

read_all-closed_example : (read_all 6 limits stray).closed ≡ true
read_all-closed_example = read_all-closed 6 limits stray (omega arith)

-- "5 <1>hi"
abbrev short : Counted
short = record { first = 53; digits = []; priority = 49; third = 62; text = 104 ∷ 105 ∷ [] }

-- "11 <1>hi 10 hi"
abbrev long : Counted
long = record {
  first = 49;
  digits = 49 ∷ [];
  priority = 49;
  third = 62;
  text = 104 ∷ 105 ∷ 10 ∷ 49 ∷ 48 ∷ 32 ∷ 104 ∷ 105 ∷ [];
}

short-IsCounted : IsCounted limits short
unfolding value message
short-IsCounted = record {
  leading = (refl, λ h. absurd (omega (arith, h)));
  all_digits = tt;
  few = omega arith;
  priority = refl;
  counts = refl;
  small = omega arith;
}

long-IsCounted : IsCounted limits long
unfolding value message
long-IsCounted = record {
  leading = (refl, λ h. absurd (omega (arith, h)));
  all_digits = (refl, tt);
  few = omega arith;
  priority = refl;
  counts = refl;
  small = omega arith;
}

read_all-encode_all_example :
    read_all 3 limits (encode_all (short ∷ long ∷ []))
    ≡ record { lines = map message (short ∷ long ∷ []); oversize = 0; truncated = 0; closed = true }
read_all-encode_all_example =
    read_all-encode_all limits 3 (short ∷ long ∷ []) (omega arith)
      (short-IsCounted, (long-IsCounted, tt))
