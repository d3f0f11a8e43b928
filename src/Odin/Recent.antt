-- ===== src/Odin/Recent.antt =====
-- The requests that the page of odin lists.
use rite.Prelude.{
  ℕ, suc, ◌≤◌, ◌≡◌, sym, ap, ◌∙◌, List, [], ◌∷◌, arith, length, take, take_long, take-take, when,
  length-take, ltb→lt, ltb_false→le, ltb, if◌then◌else◌,
}
use rite.Http.Request.{HttpRequest}
use rite.Odin.{
  Odin, OdinHttpRequest, ring_size, logged, push_recent, Context, admin_user, timed, post_send,
  sample,
}

-- A response that odin has sent: when, to which request, and with which context.
abbrev pub Sent : Type 0
Sent = (now : ℕ) × (ip : List ℕ) × (req : HttpRequest) × Context

-- The requests that are recorded of them, the newest first.
unfoldable pub recorded : List Sent → List OdinHttpRequest → List OdinHttpRequest
recorded [] newest = newest
recorded ((now, ip, req, admin_user) ∷ sent) newest = recorded sent newest
recorded ((now, ip, req, timed t) ∷ sent) newest = recorded sent (logged ip req t ∷ newest)

abbrev pub send_all : List Sent → Odin → Odin
send_all [] o = o
send_all ((now, ip, req, c) ∷ sent) o = send_all sent (post_send now ip req c o)

push_any :
    (m : ℕ) (r : OdinHttpRequest) (xs : List OdinHttpRequest)
    → let ring = take (suc m) xs in
      (if ltb (suc m) (length (r ∷ ring)) then take (length ring) (r ∷ ring) else r ∷ ring)
      ≡ take (suc m) (r ∷ xs)
push_any m r xs =
    let ring = take (suc m) xs in
    let size = length-take (suc m) xs in
    when (λ l. l ≡ take (suc m) (r ∷ xs)) (ltb (suc m) (length (r ∷ ring))) _ _
      (λ t.
        let full : length ring ≡ suc m =
          omega (arith, size, ltb→lt (suc m) (length (r ∷ ring)) t) in
        ap (λ k. take k (r ∷ ring)) full ∙ ap (λ l. r ∷ l) (take-take m xs))
      (λ f.
        let short : length xs ≤ m =
          omega (arith, size, ltb_false→le (suc m) (length (r ∷ ring)) f) in
        ap (λ l. r ∷ l) (take_long (suc m) xs (omega (arith, short)) ∙ sym (take_long m xs short)))

push_recent-take :
    (r : OdinHttpRequest) (newest : List OdinHttpRequest)
    → push_recent r (take ring_size newest) ≡ take ring_size (r ∷ newest)
unfolding push_recent
push_recent-take r newest = push_any 4999 r newest

pub send_all-ring :
    (sent : List Sent) (newest : List OdinHttpRequest) (o : Odin)
    → o.ring_buffer ≡ take ring_size newest
    → (send_all sent o).ring_buffer ≡ take ring_size (recorded sent newest)
unfolding recorded post_send sample
send_all-ring [] newest o e = e
send_all-ring ((now, ip, req, admin_user) ∷ sent) newest o e = send_all-ring sent newest o e
send_all-ring ((now, ip, req, timed t) ∷ sent) newest o e =
    send_all-ring sent (logged ip req t ∷ newest) _
      (ap (push_recent (logged ip req t)) e ∙ push_recent-take (logged ip req t) newest)
