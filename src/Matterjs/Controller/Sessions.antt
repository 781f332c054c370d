-- ===== src/Matterjs/Controller/Sessions.antt =====
-- A session with the Matter server in which a request is answered.
use manisa_app.Prelude.{
  ℕ, inl, inr, ◌+◌, ◌<◌, ◌^◌, ◌≡◌, refl, String, true, some, List, [], ◌∷◌, ◌++◌, All,
}
use manisa_app.Value.{Params}
use manisa_app.Text.Number.{format_uint}
use manisa_app.Domain.Error.{Result, ok, err, Exec}
use manisa_app.Application.World.{◌>>=◌, Exec-cases}
use manisa_app.Matter.{Command}
use manisa_app.Matterjs.Wire.{WireResponse, Frame, Link, opened, Net}
use manisa_app.Matterjs.Client.{reply, call, device_args, execute_call}
use manisa_app.Matterjs.Controller.{dial, with_connection}
use manisa_app.Matterjs.Replies.{Answers, call_lem}

-- an answer that is looked at for its error only
abbrev pub done_of : Result String → Result (Unit {0})
done_of (ok text) = ok tt
done_of (err e) = err e

module _ {F : Type 0} where
  -- The next connection opens, can be written to, tells about the server and, after late responses to
  -- the client's earlier requests, answers the next request by `r`.
  pub record Session (net net' : Net F) (command : String) (args : Params F) (r : WireResponse)
      : Type 0 where
    pub info : Frame
    pub stale : List Frame
    pub own : Frame
    pub rest : List Frame
    pub writable : ℕ
    pub opens : net.dials ≡ opened (info ∷ stale ++ own ∷ rest) writable ∷ net'.dials
    pub can_write : 0 < writable
    pub tells : info.is_object ≡ true
    pub late : All (Answers net.next_id) stale
    pub response : own.response ≡ some r
    pub numbered : r.message_id ≡ format_uint (net.next_id + 1)
    pub counts : net.next_id + 1 < 2 ^ 64
    pub counted : net'.next_id ≡ net.next_id + 1
    pub sent :
        net'.sent
        ≡ net.sent
          ++ record { message_id = format_uint (net.next_id + 1); command = command; args = args }
            ∷ []

  -- What a session's request is answered by, for a use of it that makes the one request.
  pub with_connection-call :
      {A : Type 0} (f : Result String → Result A) (run : Exec (Link F) A) (net net' : Net F)
      (command : String) (args : Params F) (r : WireResponse)
      → ((link : Link F) → run link ≡ (f (call command args link).0, (call command args link).1))
      → Session net net' command args r
      → with_connection run net ≡ (f (reply r), net')
  unfolding with_connection dial
  with_connection-call f run net net' command args r one s =
      let link : Link F = record {
        next_id = net.next_id;
        sent = net.sent;
        incoming = s.stale ++ s.own ∷ s.rest;
        writable = s.writable;
      } in
      let answered =
        call_lem command args link s.stale s.own r s.rest s.can_write s.counts s.late s.response
          s.numbered refl in
      rw (s.opens, s.tells, ◌>>=◌, one link, answered, s.counted, s.sent) refl

  pub execute_call_answered :
      (n : ℕ) (command : Command F) (net net' : Net F) (r : WireResponse)
      → Session net net' "device_command" (device_args n command) r
      → with_connection (execute_call n command) net ≡ (done_of (reply r), net')
  execute_call_answered n command net net' r =
      with_connection-call done_of (execute_call n command) net net' "device_command"
        (device_args n command) r
        (λ link. elim (Exec-cases (call "device_command" (device_args n command) link)) [
          | inl (answer, link', h) ↦ rw (◌>>=◌, h) refl
          | inr (e', link', h) ↦ rw (◌>>=◌, h) refl
        ])
