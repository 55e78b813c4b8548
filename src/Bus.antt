-- ===== src/Bus.antt =====
-- engine/command.py, engine/query.py and engine/events.py: the buses. The type of a command, query
-- or event is a string.
pub mod Command
pub mod Query
pub mod Event
