-- ===== src/ToolGateway/McpClient.antt =====
-- services/tool-gateway-mcp/src/mcp-client.ts: one JSON-RPC request over HTTP, and tools/call.
-- What fetch delivers is the parameter `fetch`; a body that is no JSON text is `none`.
use ai_digital_office_os.Prelude.{
  ℕ, String, Bool, true, false, Option, none, some, eqb, ◌==◌, not, if◌then◌else◌,
}
use ai_digital_office_os.Json
use ai_digital_office_os.Json.{Json, Fields, field, end}
use ai_digital_office_os.Failure.{
  Failure, tool_gateway_error, other_error, ToolGatewayErrorCode, mcp_protocol_error,
  mcp_unreachable, Result, ok, err, ◌>>=◌,
}

-- an abort by the timer, another exception of fetch, a response, or one whose text cannot be read
pub data FetchOutcome : Type 0 where
  aborted unreachable unreadable : FetchOutcome
  responded : Option Json → FetchOutcome

-- endpoint, request id, method and params
abbrev pub Fetch : Type 0
Fetch = String → ℕ → String → Json → FetchOutcome

pub record McpToolCallResult : Type 0 where
  pub content : Json
  pub is_error : Json

-- a value that an `if` takes for true
abbrev truthy : Option Json → Bool
truthy none = false
truthy (some Json.null) = false
truthy (some (Json.bool b)) = b
truthy (some (Json.num n)) = not (eqb n 0)
truthy (some (Json.str s)) = not (s == "")
truthy (some _) = true

abbrev is_number : Option Json → ℕ → Bool
is_number (some (Json.num n)) id = eqb n id
is_number _ id = false

abbrev pub protocol_error : Failure
protocol_error = tool_gateway_error mcp_protocol_error false

-- the response's checks; `none` is an undefined result
unfoldable pub read_response : ℕ → Option Json → Result (Option Json)
read_response id none = err protocol_error
read_response id (some Json.null) = err other_error
read_response id (some (Json.obj parsed)) =
    if truthy (Json.get "error" parsed)
    then err protocol_error
    else if is_number (Json.get "id" parsed) id
    then ok (Json.get "result" parsed)
    else err protocol_error
read_response id (some _) = err protocol_error

unfoldable pub request : Fetch → String → ℕ → String → Json → Result (Option Json)
unfolding read_response
request fetch endpoint id method params = elim (fetch endpoint id method params) [
  | aborted ↦ err (tool_gateway_error ToolGatewayErrorCode.timeout true)
  | unreachable ↦ err (tool_gateway_error mcp_unreachable true)
  | unreadable ↦ err other_error
  | responded body ↦ read_response id body
]

-- `x ?? d`
abbrev or_else : Option Json → Json → Json
or_else none d = d
or_else (some Json.null) d = d
or_else (some x) d = x

-- reading a property of undefined or null throws a TypeError
unfoldable pub read_result : Option Json → Result McpToolCallResult
read_result none = err other_error
read_result (some Json.null) = err other_error
read_result (some (Json.obj result)) = ok (record {
  content = or_else (Json.get "content" result) Json.null;
  is_error = or_else (Json.get "isError" result) (Json.bool false);
})
read_result (some _) = ok (record { content = Json.null; is_error = Json.bool false })

-- `new McpClient(endpoint).callTool(name, args)`: the first request has the id 1
unfoldable pub call : Fetch → String → String → Json → Result McpToolCallResult
call fetch endpoint name arguments = do
  result ←
      request fetch endpoint 1 "tools/call"
        (Json.obj (field "name" (Json.str name) (field "arguments" arguments end)))
  read_result result
