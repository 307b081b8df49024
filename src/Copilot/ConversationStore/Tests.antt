-- ===== src/Copilot/ConversationStore/Tests.antt =====
-- The conversation store of copilot/kernel/conversation-store.ts at concrete inputs.
use newbie_modules.Common.{ℕ, String, ◌≡◌, refl, none, some, [], ◌∷◌, get, set, arith}
use newbie_modules.Copilot.ConversationStore.State.{
  Store, BeginRunCommand, ConversationRecord, RunHandle, started, replayed, user, blank_record,
  update, new_store,
}
use newbie_modules.Copilot.ConversationStore.Operations.{
  prune, start, begin_on, allocate, open_fresh, find_record, begin_unseen, begin_pruned, begin_run,
  note_event, succeed, fail,
}
use newbie_modules.Copilot.ConversationStore.Bounds.{
  IsBounded, Reach, here, next, began, noted, Reach-IsBounded,
}
use newbie_modules.Copilot.ConversationStore.Isolation.{IsOwn, begin_run-IsOwn}
use newbie_modules.Copilot.ConversationStore.Replay.{settle-replay}
use newbie_modules.Copilot.ConversationStore.Retention.{IsKeyed}

abbrev ask : String → BeginRunCommand
ask request_id = record {
  user_id = "u";
  conversation_id = some "c";
  request_id = request_id;
  user_message = "hi";
}

abbrev empty : Store ℕ
empty = record {
  conversations = [];
  heap = λ p. blank_record;
  next_record = 0;
  completed_runs = [];
  buffers = λ b. [];
  next_buffer = 0;
  ttl_ms = 100;
  retention_ms = 50;
}

-- The conversation `c` of `u`, with the request `r1` in flight since 10.
abbrev talk : ConversationRecord
talk = record {
  conversation_id = "c";
  user_id = "u";
  messages = record { role = user; content = "hi"; at = 10 } ∷ [];
  created_at = 10;
  updated_at = 10;
  running = some (record { request_id = "r1"; started_at = 10 });
}

abbrev busy : Store ℕ
busy = record empty {
  conversations = ("c", 0) ∷ [];
  heap = update (λ p. blank_record) 0 talk;
  next_record = 1;
  next_buffer = 1;
}

abbrev handle : RunHandle
handle = record {
  conversation_id = "c";
  history = [];
  owner = 0;
  buffer = 0;
  request_id = "r1";
  user_id = "u";
}

begin_run_first : (begin_run 10 "x" (ask "r1") empty).1 ≡ started handle
unfolding begin_run begin_pruned begin_unseen find_record open_fresh allocate begin_on start prune
    get set
begin_run_first = refl

nothing_completed : get "r2" (prune 20 busy).completed_runs ≡ none
unfolding prune get
nothing_completed = refl

nothing_completed_late : get "r2" (prune 200 busy).completed_runs ≡ none
unfolding prune get
nothing_completed_late = refl

talk_found : get "c" busy.conversations ≡ some 0
unfolding get
talk_found = refl

talk-IsKeyed : IsKeyed busy.heap busy.conversations
unfolding get
talk-IsKeyed = (refl, tt)

begin_run-IsOwn_example : IsOwn (ask "r2") (prune 20 busy) (begin_run 20 "x" (ask "r2") busy).1
begin_run-IsOwn_example = begin_run-IsOwn 20 "x" (ask "r2") busy

abbrev new : Store ℕ
new = new_store (some 100) (some 50)

abbrev two_calls : Reach new (note_event handle 7 (begin_run 10 "x" (ask "r1") new).0)
two_calls = next (next here (began 10 "x" (ask "r1") new)) (noted handle 7 _)

Reach-IsBounded_example : IsBounded (note_event handle 7 (begin_run 10 "x" (ask "r1") new).0)
Reach-IsBounded_example = Reach-IsBounded (some 100) (some 50) two_calls

settle-replay_example :
    let answer = replayed (busy.heap 0).conversation_id (busy.buffers 0) in
    ((begin_run 60 "x" (ask "r1") (succeed 30 31 handle "done" busy)).1 ≡ answer)
    × ((begin_run 60 "x" (ask "r1") (fail 31 handle busy)).1 ≡ answer)
settle-replay_example =
    settle-replay 60 30 31 "x" "done" (ask "r1") handle busy refl refl refl (omega arith)

-- The request in flight, once more and without the conversation's name.
abbrev again : BeginRunCommand
again = record (ask "r1") { conversation_id = none }

nothing_completed_again : get "r1" (prune 20 busy).completed_runs ≡ none
unfolding prune get
nothing_completed_again = refl
