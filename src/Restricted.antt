-- ===== src/Restricted.antt =====
-- The check of restricted fields (src/core/common/decorators/restricted.decorator.ts, with the ids of
-- src/core/common/helpers/id.helper.ts). Data are trees: a value that is shared or that contains itself
-- is not modelled. The metadata of the decorators are functions of a class and a property. An
-- exception is `none`; accessDeniedException takes its status from the user alone.
pub mod Data
pub mod Validate
pub mod Check
pub mod Hidden
pub mod Inversion
pub mod Shown
pub mod Visit
pub mod Clean
mod Tests
