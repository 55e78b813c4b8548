-- ===== src/Workflow.antt =====
-- engine/workflow_validator.py: the validation of ComfyUI workflows, the classification of their
-- nodes, and the mapping of purposes to node ids. A workflow is the parsed JSON. A list among the
-- inputs of a node is given by the texts (`str`) of its elements; another input is a value of the type
-- `V`. Errors and warnings are data, for the code's formatted
-- messages.
pub mod Nodes
pub mod Mappings
pub mod Validation
pub mod Standard
pub mod Totality
pub mod Serving
pub mod Required
