-- ===== src/Discord/Acknowledged.antt =====
-- What the result of `acknowledge` in src/discord.rs says.
use raydio.Prelude.{
  ℕ, ◌≤◌, ◌<◌, ◌≡◌, ◌≢◌, ◌⊎◌, refl, Bool, true, false, Option, none, some, arith, inl, inr,
}
use raydio.Discord.{Request}
use raydio.Discord.Calls.{
  transport, parsing, validation, unauthorized, response, Outcome, done, timed_out, failed,
  acknowledge,
}

-- How Discord and Twilight document that the creation of a response ends, given whether Discord took
-- the response. A call that times out, breaks off or meets an error of the server may have been taken,
-- and so may one that is refused as a second one, and one whose answer cannot be parsed.
pub data Documented : Outcome → Bool → Type 0 where
  succeeds : Documented done true
  times_out : (taken : Bool) → Documented timed_out taken
  breaks_off : (taken : Bool) → Documented (failed transport) taken
  unreadable : (taken : Bool) → Documented (failed parsing) taken
  not_valid : Documented (failed validation) false
  not_authorized : Documented (failed unauthorized) false
  refused :
      (status : ℕ) (code : Option ℕ)
      → status < 500
      → code ≢ some 40060
      → Documented (failed (response status code)) false
  repeated : (status : ℕ) (taken : Bool) → Documented (failed (response status (some 40060))) taken
  server_error :
      (status : ℕ) (code : Option ℕ) (taken : Bool)
      → 500 ≤ status
      → Documented (failed (response status code)) taken

-- Discord returns the original response only when it has taken one; a read may fail in any case.
pub data Reading : Bool → Bool → Type 0 where
  finds : Reading true true
  fails : (taken : Bool) → Reading false taken

-- How a deferral that was taken is given up: the answer to its creation cannot be parsed, or no
-- answer shows that it was taken and the read has failed.
abbrev pub Missed : Outcome → Bool → Type 0
Missed o readable = (o ≡ failed parsing) ⊎ ((o ≢ done) × (readable ≡ false))

-- In the cases that are verified, the result is what the read shows.
read_shows :
    (o : Outcome) {readable taken acknowledged : Bool}
    → Reading readable taken
    → o ≢ done
    → acknowledged ≡ readable
    → (acknowledged ≡ taken) ⊎ ((taken ≡ true) × (acknowledged ≡ false) × Missed o readable)
read_shows o finds n e = inl e
read_shows o (fails true) n e = inr (refl, e, inr (n, refl))
read_shows o (fails false) n e = inl e

-- When the creation of the deferral and the read of the original response end as documented,
-- `acknowledge` returns whether Discord has taken the deferral, unless the deferral was taken, the
-- result is false, and either the answer to the creation could not be parsed, or the creation did
-- not succeed and the read failed.
pub acknowledge-taken :
    (r : Request) (o : Outcome) (readable taken : Bool)
    → Documented o taken
    → Reading readable taken
    → ((acknowledge r o readable).1 ≡ taken)
      ⊎ ((taken ≡ true) × ((acknowledge r o readable).1 ≡ false) × Missed o readable)
unfolding acknowledge
acknowledge-taken r _ readable _ succeeds e = inl refl
acknowledge-taken r _ readable _ (times_out t) e = read_shows timed_out e (λ x. cc) refl
acknowledge-taken r _ readable _ (breaks_off t) e = read_shows (failed transport) e (λ x. cc) refl
acknowledge-taken r _ readable _ (unreadable true) e = inr (refl, refl, inl refl)
acknowledge-taken r _ readable _ (unreadable false) e = inl refl
acknowledge-taken r _ readable _ not_valid e = inl refl
acknowledge-taken r _ readable _ not_authorized e = inl refl
acknowledge-taken r _ readable _ (refused status none l c) e = inl (ground (arith, l))
acknowledge-taken r _ readable _ (refused status (some n) l c) e = inl (ground (arith, l, c))
acknowledge-taken r _ readable _ (repeated status t) e =
    read_shows (failed (response status (some 40060))) e (λ x. cc) (ground arith)
acknowledge-taken r _ readable _ (server_error status code t l) e =
    read_shows (failed (response status code)) e (λ x. cc) (ground (arith, l))
