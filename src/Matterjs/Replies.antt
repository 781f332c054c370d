-- ===== src/Matterjs/Replies.antt =====
-- The answer to a request is the answer to that request.
use manisa_app.Prelude.{
  ℕ, ◌+◌, ◌-◌, some, nat_eq, ◌≤◌, ◌<◌, ◌^◌, ◌≡◌, ◌≢◌, refl, sym, ap, ◌∙◌, String, true, false, List,
  [], ◌∷◌, ◌++◌, ◌==◌, eq_iff, arith, All,
}
use manisa_app.Value.{Params}
use manisa_app.Text.Number.{format_uint, parse_uint, parse_uint-format_uint}
use manisa_app.Application.EventBus.{add_one}
use manisa_app.Matterjs.Wire.{WireResponse, Frame, Link}
use manisa_app.Matterjs.Client.{reply, await, call}

-- a message that is a response with another id
abbrev Misses : String → Frame → Type 0
Misses id m = (w : WireResponse) × (m.response ≡ some w) × (w.message_id ≢ id)

await-append :
    (id : String) (stale : List Frame) (f : Frame) (r : WireResponse) (rest : List Frame)
    → All (Misses id) stale
    → f.response ≡ some r
    → r.message_id ≡ id
    → await id (stale ++ f ∷ rest) ≡ (reply r, rest)
unfolding await
await-append id [] f r rest h d e =
    let same : (r.message_id == id) ≡ true = (eq_iff r.message_id id).1 e in rw (d, same) refl
await-append id (m ∷ stale) f r rest ((w, read, ne), h) d e =
    let later = await-append id stale f r rest h d e in
    let other : (w.message_id == id) ≡ false = ground (arith, eq_iff w.message_id id) in
    rw (read, other, later) refl

format_uint_injective : (a b : ℕ) → a < 2 ^ 64 → b < 2 ^ 64 → format_uint a ≡ format_uint b → a ≡ b
format_uint_injective a b ha hb e =
    let pa = parse_uint-format_uint 64 a ha in
    let pb = parse_uint-format_uint 64 b hb in
    let same = ap (λ s. parse_uint 64 s) e in ground (arith, pa, pb, same)

-- what answers one of the first `n` requests
abbrev pub Answers : ℕ → Frame → Type 0
Answers n m =
    (w : WireResponse) × (k : ℕ) × (m.response ≡ some w) × (k ≤ n) × (w.message_id ≡ format_uint k)

other_id :
    (n : ℕ) (ms : List Frame)
    → n + 1 < 2 ^ 64
    → All (Answers n) ms
    → All (Misses (format_uint (n + 1))) ms
other_id n [] lt h = tt
other_id n (m ∷ ms) lt ((w, k, read, le, e), h) = (
  (
    w,
    read,
    λ same.
        let clash = format_uint_injective k (n + 1) (omega arith) lt (sym e ∙ same) in omega arith,
  ),
  other_id n ms lt h,
)

-- A request that can be written, by a client whose counter does not wrap, is answered by the response
-- that has its number, whatever late responses to the client's earlier requests come first: these are
-- dropped, and what comes after is left for later.
pub call_lem :
    {F : Type 0} (command : String) (args : Params F) (link : Link F) (stale : List Frame)
    (f : Frame) (r : WireResponse) (rest : List Frame)
    → 0 < link.writable
    → link.next_id + 1 < 2 ^ 64
    → All (Answers link.next_id) stale
    → f.response ≡ some r
    → r.message_id ≡ format_uint (link.next_id + 1)
    → link.incoming ≡ stale ++ f ∷ rest
    → call command args link ≡ (
      reply r,
      record link {
        next_id = link.next_id + 1;
        sent =
            link.sent
            ++ record {
              message_id = format_uint (link.next_id + 1);
              command = command;
              args = args;
            }
              ∷ [];
        incoming = rest;
        writable = link.writable - 1;
      },
    )
unfolding call
call_lem command args link stale f r rest can_write lt late read own order =
    let n : add_one link.next_id ≡ link.next_id + 1 = omega arith in
    let whole : nat_eq link.writable 0 ≡ false = ground arith in
    let answered =
      await-append (format_uint (link.next_id + 1)) stale f r rest
        (other_id link.next_id stale lt late) read own in
    rw (n, order, answered, whole) refl
