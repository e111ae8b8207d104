-- ===== src/Socket/Server/Running/Acts.antt =====
-- gateway/src/ws/server.ts: what the handlers that run over the connections keep of the registries.
use rmcollab_model.Socket.Presence.{Moment}
use rmcollab_model.Common.{refl, String, Bool, true, false, List, option_is}
use rmcollab_model.Shared.Events.{ServerEvent, RemovalScope, participant_removed}
use rmcollab_model.Socket.Server.{Connection, Hub, send}
use rmcollab_model.Socket.Server.Told.{
  by_scope, remove_one, forget_one, end_one, decide_one, is_asker,
}
use rmcollab_model.Socket.Server.Running.{on_pong, beat, answer_bad}
use rmcollab_model.Socket.Server.Running.Keeps.{Keeps, hub-Keeps, Keeps-trans, leave-Keeps}
use rmcollab_model.Socket.Server.Running.Joined.{place-Keeps, let_in-Keeps}
use rmcollab_model.Socket.Server.Running.Handled.{Keeps-if}

pub remove_one-Keeps :
    (now : Moment) (r id : String) (scope : RemovalScope) (by_name : String) (h : Hub)
    (c : Connection)
    → Keeps (h, c) (remove_one now r id scope by_name (h, c))
unfolding remove_one
remove_one-Keeps now r id scope by_name h c =
    Keeps-if (option_is c.participant_id id) (h, c) _ (h, c) (λ e. told scope)
      (λ e. hub-Keeps h h c refl refl)
  where
    event : ServerEvent
    event = participant_removed r id scope by_name

    told : (s : RemovalScope) → Keeps (h, c) (by_scope now s r (send c event h, c))
    told RemovalScope.session = place-Keeps h _ c _ refl refl (refl, refl, refl, refl, refl)
    told RemovalScope.room =
        Keeps-if (option_is c.room_id r) (h, c) _ _
          (λ e.
            Keeps-trans (h, c) (send c event h, c) _ (hub-Keeps h (send c event h) c refl refl)
              (leave-Keeps now (send c event h) c))
          (λ e. hub-Keeps h _ c refl refl)

pub forget_one-Keeps :
    (r : String) (kept : List String) (h : Hub) (c : Connection)
    → Keeps (h, c) (forget_one r kept (h, c))
unfolding forget_one
forget_one-Keeps r kept h c =
    Keeps-if (option_is c.room_id r) (h, c) _ _
      (λ e. place-Keeps h h c _ refl refl (refl, refl, refl, refl, refl))
      (λ e. hub-Keeps h h c refl refl)

pub end_one-Keeps :
    (s : String) (event : ServerEvent) (h : Hub) (c : Connection)
    → Keeps (h, c) (end_one s event (h, c))
unfolding end_one
end_one-Keeps s event h c =
    Keeps-if (option_is c.session_id s) (h, c) _ _
      (λ e. place-Keeps h _ c _ refl refl (refl, refl, refl, refl, refl))
      (λ e. hub-Keeps h h c refl refl)

pub decide_one-Keeps :
    (id : String) (admitted : Bool) (event : ServerEvent) (h : Hub) (c : Connection)
    → Keeps (h, c) (decide_one id admitted event (h, c))
unfolding decide_one
decide_one-Keeps id admitted event h c =
    Keeps-if (is_asker id c) (h, c) _ _
      (λ e.
        Keeps-if admitted (h, c) _ _
          (λ f.
            Keeps-trans (h, c) (send c event h, c) _ (hub-Keeps h (send c event h) c refl refl)
              (let_in-Keeps (send c event h) c))
          (λ f. place-Keeps h _ c _ refl refl (refl, refl, refl, refl, refl)))
      (λ e. hub-Keeps h h c refl refl)

pub beat-Keeps : (h : Hub) (c : Connection) → Keeps (h, c) (beat (h, c))
unfolding beat
beat-Keeps h c =
    Keeps-if c.alive (h, c) _ _ (λ e. place-Keeps h _ c _ refl refl (refl, refl, refl, refl, refl))
      (λ e. place-Keeps h _ c _ refl refl (refl, refl, refl, refl, refl))

pub pong-Keeps : (now : Moment) (h : Hub) (c : Connection) → Keeps (h, c) (on_pong now (h, c))
unfolding on_pong
pong-Keeps now h c = place-Keeps h _ c _ refl refl (refl, refl, refl, refl, refl)

pub bad-Keeps :
    (is_json : Bool) (h : Hub) (c : Connection) → Keeps (h, c) (answer_bad is_json (h, c))
unfolding answer_bad
bad-Keeps true h c = hub-Keeps h _ c refl refl
bad-Keeps false h c = hub-Keeps h _ c refl refl
