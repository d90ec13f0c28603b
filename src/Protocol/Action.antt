-- ===== src/Protocol/Action.antt =====
-- internal/protocol/message.go: the constants `Action...`.
use dst_go_backend.Base.{String}

abbrev pub deploy : String
deploy = "deploy"

abbrev pub init : String
init = "init"

abbrev pub start : String
start = "start"

abbrev pub stop : String
stop = "stop"

abbrev pub update : String
update = "update"

abbrev pub delete : String
delete = "delete"

abbrev pub status : String
status = "status"
