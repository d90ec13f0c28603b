-- ===== src/Protocol/MsgType.antt =====
-- internal/protocol/message.go: the constants `Type...`.
use dst_go_backend.Base.{String}

abbrev pub ping : String
ping = "ping"

abbrev pub command : String
command = "command"

abbrev pub ack : String
ack = "ack"

abbrev pub log : String
log = "log"

abbrev pub result : String
result = "result"
