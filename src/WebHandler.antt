-- ===== src/WebHandler.antt =====
-- src/web_handler.c: from an HTTP request to the response, by way of the session of the visitor, the
-- privileges of its role, the validation of what it posted and the handler of the action.
pub mod Site
pub mod Files
pub mod Post
pub mod Language
pub mod Role
pub mod Get
pub mod Connection
pub mod Upload
pub mod Response
pub mod Tests
