-- ===== src/Echo/Watching.antt =====
-- echo.c: what epoll watches, and how a connection ends.
use bd_tarantul.Common.{
  ◌≡◌, refl, sym, ap, subst, append-nil, Bool, true, false, none, some, [], ◌∷◌, if◌then◌else◌,
  Bytes,
}
use bd_tarantul.Echo.{
  Interest, epollin, epollout, EchoEvent, Conn, Outcome, kept, closed, exited, fault, failed,
  is_past_end, handle_out, Ready, hup, readable, writable, both, on_client,
}

abbrev pub is_fault : Ready → EchoEvent → Bool
is_fault (writable w) e = is_past_end w e
is_fault _ e = false

-- A connection that is watched for one event.
abbrev pub IsWatched : Outcome → Type 0
IsWatched (kept c) = (i : Interest) × (c.watched ≡ some i)
IsWatched closed = Unit {0}
IsWatched exited = ⊥
IsWatched fault = ⊥

out-IsWatched :
    (past again bad : Bool) (c c' : Conn) (i i' : Interest)
    → past ≡ false
    → c.watched ≡ some i
    → c'.watched ≡ some i'
    → IsWatched (if past then fault else if again then kept c else if bad then closed else kept c')
out-IsWatched true again bad c c' i i' f w w' = absurd cc
out-IsWatched false true bad c c' i i' f w w' = (i, w)
out-IsWatched false false true c c' i i' f w w' = tt
out-IsWatched false false false c c' i i' f w w' = (i', w')

watched-IsWatched :
    (r : Ready) (e : EchoEvent) (sent : Bytes) (i : Interest)
    → is_fault r e ≡ false
    → IsWatched (on_client r (record { echo = e; watched = some i; sent = sent }))
unfolding on_client handle_out
watched-IsWatched hup e sent i f = tt
watched-IsWatched (readable none) e sent i f = tt
watched-IsWatched (readable (some [])) e sent i f = tt
watched-IsWatched (readable (some (b ∷ bs))) e sent i f = (epollout, refl)
watched-IsWatched (writable w) e sent i f =
    out-IsWatched (is_past_end w e) _ _ _ _ epollout epollin f refl refl
watched-IsWatched both e sent i f = (i, refl)

-- As long as no write reads past the end of `data`, the server never exits for a call of `epoll_ctl`
-- on a connection, and a connection that it does not close stays watched, so it can go on.
pub on_client-IsWatched :
    (r : Ready) (c : Conn) (i : Interest)
    → c.watched ≡ some i
    → is_fault r c.echo ≡ false
    → IsWatched (on_client r c)
unfolding on_client handle_out
on_client-IsWatched r c i w f =
    subst (λ t. IsWatched (on_client r (record c { watched = t }))) (sym w)
      (watched-IsWatched r c.echo c.sent i f)

-- A write that fails, for whatever reason, leaves the connection open and watched for output, with
-- everything that it still has to send: only the peer's hang-up or an error that epoll reports closes
-- it. A read that fails, and the end of the stream, close it.
pub on_client-closes :
    (e : EchoEvent) (sent : Bytes) (i : Interest) (eintr : Bool)
    → ((on_client (writable (failed eintr)) (record { echo = e; watched = some i; sent = sent })
          ≡ kept (record { echo = e; watched = some epollout; sent = sent }))
        × (on_client (readable none) (record { echo = e; watched = some i; sent = sent }) ≡ closed))
      × ((on_client (readable (some [])) (record { echo = e; watched = some i; sent = sent })
            ≡ closed)
          × (on_client hup (record { echo = e; watched = some i; sent = sent }) ≡ closed))
unfolding on_client handle_out
on_client-closes e sent i true = (
  (ap (λ t. kept (record { echo = e; watched = some epollout; sent = t })) (append-nil sent), refl),
  (refl, refl),
)
on_client-closes e sent i false = (
  (ap (λ t. kept (record { echo = e; watched = some epollout; sent = t })) (append-nil sent), refl),
  (refl, refl),
)
