-- ===== src/Session/Races.antt =====
-- QcSession.hpp: what the handshake's thread and the heartbeat's see of each other and of the dispatcher.
use qcremote.Prelude.{
  if◌then◌else◌, is_empty, ℕ, ◌+◌, ◌%◌, ◌^◌, ◌≡◌, refl, ap, ◌∙◌, Bool, true, false, not, ◌&&◌, ◌||◌,
  Option, none, List, [], ◌∷◌, arith,
}
use qcremote.Session.Stream.{log_file_stream_summary, start_stream}
use qcremote.Catalog.{reset, overflowed}
use qcremote.FileStream.{Summary, is_listing_incomplete}
use qcremote.Catalog.Snapshot.{copy_catalog_snapshot, copy_folders}
use qcremote.Prelude.Text.{EtlString}
use qcremote.Session.Handshake.{fallback_firmware_version, mirrored_version}
use qcremote.Messages.Requests.{command_version}
use qcremote.Messages.Replies.{VersionReply}
use qcremote.Session.{QcSession, take_version_reply}

-- The Version READ in runHandshake: `pendingVersionReply_` is reset, the semaphore is not.
unfoldable pub begin_version_read : QcSession → QcSession
begin_version_read s = record s { pending_version_reply = none; waiting_for_version_reply = true }

-- `sent && k_sem_take(...) == 0`: the semaphore is only asked for a message that was sent.
unfoldable pub take_version_sem : QcSession → Bool → Bool × QcSession
take_version_sem s is_sent =
    if is_sent && s.version_reply_sem
    then (true, record s { version_reply_sem = false })
    else (false, s)

unfoldable pub end_version_read : Bool × QcSession → Bool × QcSession
end_version_read (got_reply, s) = (got_reply, record s { waiting_for_version_reply = false })

unfoldable pub reply_all : QcSession → List (Option VersionReply) → QcSession
reply_all s [] = s
reply_all s (r ∷ rs) = reply_all (take_version_reply s command_version r) rs

-- The Version READ with the replies that the dispatcher hands over before the wait ends: whether one
-- was got, and the session.
unfoldable pub version_read : QcSession → Bool → List (Option VersionReply) → Bool × QcSession
version_read s is_sent replies =
    end_version_read (take_version_sem (reply_all (begin_version_read s) replies) is_sent)

abbrev pub last_reply : Option VersionReply → List (Option VersionReply) → Option VersionReply
last_reply r [] = r
last_reply r (q ∷ rs) = last_reply q rs

reply_all_lem :
    (s : QcSession) (r : Option VersionReply) (rs : List (Option VersionReply)) (given : Bool)
    → reply_all
        (record s {
          pending_version_reply = r;
          waiting_for_version_reply = true;
          version_reply_sem = given;
        })
        rs
      ≡ record s {
        pending_version_reply = last_reply r rs;
        waiting_for_version_reply = true;
        version_reply_sem = given || not (is_empty rs);
      }
unfolding reply_all take_version_reply
reply_all_lem s r [] true = refl
reply_all_lem s r [] false = refl
reply_all_lem s r (q ∷ rs) true = reply_all_lem s q rs true
reply_all_lem s r (q ∷ rs) false = reply_all_lem s q rs true

-- A Version READ counts as answered if it was sent and the semaphore was left given from before or a
-- reply came; what it found is the last reply that came since it began, or none. A semaphore that is
-- given while the READ is not sent stays given.
pub version_read_lem :
    (s : QcSession) (is_sent : Bool) (replies : List (Option VersionReply))
    → version_read s is_sent replies ≡ (
      is_sent && (s.version_reply_sem || not (is_empty replies)),
      record s {
        pending_version_reply = last_reply none replies;
        waiting_for_version_reply = false;
        version_reply_sem = not is_sent && (s.version_reply_sem || not (is_empty replies));
      },
    )
unfolding version_read begin_version_read take_version_sem end_version_read
version_read_lem s is_sent replies =
    rw (reply_all_lem s none replies s.version_reply_sem)
      (ended is_sent (s.version_reply_sem || not (is_empty replies)))
  where
    ended :
        (is_sent given : Bool)
        → end_version_read (
            take_version_sem
              (record s {
                pending_version_reply = last_reply none replies;
                waiting_for_version_reply = true;
                version_reply_sem = given;
              })
              is_sent)
          ≡ (
            is_sent && given,
            record s {
              pending_version_reply = last_reply none replies;
              waiting_for_version_reply = false;
              version_reply_sem = not is_sent && given;
            },
          )
    ended true true = refl
    ended true false = refl
    ended false true = refl
    ended false false = refl

-- A reply that comes during a READ that was not sent is taken for an answer to the next READ: that one
-- ends without waiting, as answered, with no reply, and the handshake mirrors the fallback version.
pub stale_version_reply :
    (etl : EtlString) (s : QcSession) (r : Option VersionReply)
    → let (got_reply, t) = version_read (version_read s false (r ∷ [])).1 true [] in
      (got_reply ≡ true)
      × (mirrored_version etl got_reply t.pending_version_reply
          ≡ etl.assign 40 fallback_firmware_version)
unfolding mirrored_version
stale_version_reply etl s r =
    let first = version_read_lem s false (r ∷ []) in
    let second = version_read_lem (version_read s false (r ∷ [])).1 true [] in
    let given : (version_read s false (r ∷ [])).1.version_reply_sem ≡ true =
      ap (λ x. x.1.version_reply_sem) first ∙ ground arith in
    let none_there : (version_read (version_read s false (r ∷ [])).1 true
          []).1.pending_version_reply
        ≡ none =
      ap (λ x. x.1.pending_version_reply) second in
    (ap (λ x. x.0) second ∙ rw given refl, rw none_there refl)

-- A File READ that starts while the heartbeat is between the end of the stream before and its listing
-- empties the catalog under it: what is published then has no folder, and the new generation, and it
-- is not marked incomplete if the stream that ended was complete.
pub emptied_listing :
    (s : QcSession) (now later : ℕ) (summary : Summary)
    → is_listing_incomplete summary false ≡ false
    → (log_file_stream_summary (start_stream s now) later summary).catalog_snapshot ≡ record {
      folders = [];
      preset_count = 0;
      incomplete = false;
      generation = (s.preset_catalog.generation + 1) % 2 ^ 32;
    }
unfolding log_file_stream_summary start_stream reset copy_catalog_snapshot copy_folders overflowed
emptied_listing s now later summary complete = simp complete
