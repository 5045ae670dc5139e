-- ===== src/ControlPlane/Agents/Messages.antt =====
-- agents.ts: the messages between agents. A message's identifier is a parameter.
use ai_digital_office_os.Prelude.{
  ℕ, String, Bool, true, false, ◌&&◌, ◌||◌, Option, none, some, List, ◌==◌,
}
use ai_digital_office_os.Json
use ai_digital_office_os.Json.{Json}
use ai_digital_office_os.Schema.{Db, AgentMessageRow}
use ai_digital_office_os.Db.Ordering.{newest_first}
use ai_digital_office_os.Db.{
  Action, pure, gets, guard, ◌>>=◌, ◌>>◌, with_tenant_transaction, select, select_one,
}
use ai_digital_office_os.Db.Tables.{message_owner, insert_message}
use ai_digital_office_os.ControlPlane.Errors.{validation}
use ai_digital_office_os.ControlPlane.Body.{given, text_of, post_params, json_or_null}
use ai_digital_office_os.ControlPlane.Idempotency.{IdempotentResult, with_idempotent_write}
use ai_digital_office_os.ControlPlane.Agents.{when}

-- GET /agents/{agentId}/messages
unfoldable pub list_messages : String → String → Option String → Action (List AgentMessageRow)
list_messages tenant_id agent_id status = with_tenant_transaction tenant_id (λ client. gets (λ db.
    newest_first (λ row. row.created_at)
      (select message_owner client
        (λ row.
          (row.sender_agent_id == agent_id || row.receiver_agent_id == agent_id)
          && when status (λ s. row.status == s))
        db.messages)))

abbrev pub same_key : Option String → String → Bool
same_key none key = false
same_key (some k) key = k == key

abbrev pub find_message : String → String → String → Db → Option AgentMessageRow
find_message client tenant_id key db =
    select_one message_owner client
      (λ row. row.tenant_id == tenant_id && same_key row.idempotency_key key) db.messages

-- `{ messageId, replayed }`
abbrev pub message_body : String → Bool → Json
message_body message_id replayed = Json.obj (
    Json.field "messageId" (Json.str message_id)
      (Json.field "replayed" (Json.bool replayed) Json.end))

abbrev pub queued_row :
    String
    → String
    → String
    → String
    → Option String
    → Option String
    → Option Json
    → ℕ
    → AgentMessageRow
queued_row message_id tenant_id key sender receiver message_type payload now = record {
  message_id = message_id;
  tenant_id = tenant_id;
  sender_agent_id = sender;
  receiver_agent_id = text_of receiver;
  message_type = text_of message_type;
  input_payload = json_or_null payload;
  status = "QUEUED";
  idempotency_key = some key;
  created_at = now;
}

-- after the lookup of the key among the messages
unfoldable pub enqueue_once : String → AgentMessageRow → Option AgentMessageRow → Action (ℕ × Json)
enqueue_once client row (some sent) = pure (202, message_body sent.message_id true)
enqueue_once client row none = do
  insert_message client row
  pure (202, message_body row.message_id false)

-- POST /agents/{agentId}/messages
unfoldable pub send_message :
    String
    → String
    → String
    → String
    → String
    → Option String
    → Option String
    → Option Json
    → Action IdempotentResult
send_message new_id tenant_id key path sender receiver message_type payload = do
  guard (given receiver && given message_type) validation
  with_tenant_transaction tenant_id (λ client.
      with_idempotent_write client (post_params tenant_id key path) (do
        existing ← gets (find_message client tenant_id key)
        now ← gets (λ db. db.clock)
        enqueue_once client
            (queued_row new_id tenant_id key sender receiver message_type payload now) existing))
